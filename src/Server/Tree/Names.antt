-- ===== src/Server/Tree/Names.antt =====
-- Names: what is printed, copied and found again.
use net_bsd_wii_joybus.Base.{
  ℕ, zero, suc, ◌≤◌, ◌<◌, ◌≡◌, refl, ap, arith, Bool, true, false, List, [], ◌∷◌, ◌++◌, ◌==◌, ◌||◌,
  ◌&&◌, not, take, length, All,
}
use net_bsd_wii_joybus.Server.{Entry, Run, done, fault, spins, waits}
use net_bsd_wii_joybus.Server.Safe.{Runs, Runs-bind}
use net_bsd_wii_joybus.Server.Tree.{
  percent, copy_name, name_size, is_string, same_name, string_of, write_string, format, print_name,
}

-- Every entry's name is a string of its array.
abbrev pub AreNamed : List Entry → Type 0
AreNamed es = All (λ e. is_string name_size e.name ≡ true) es

pub copy_name-done :
    (old text : List ℕ)
    → is_string name_size text ≡ true
    → copy_name old text ≡ done (write_string old (string_of text))
unfolding copy_name
copy_name-done old text h = rw h refl

-- Whether a name is a string without `%`.
unfoldable pub is_plain : List ℕ → Bool
is_plain [] = false
is_plain (x ∷ xs) = (x == 0) || (not (x == percent) && is_plain xs)

-- A string without `%` is printed as it is.
pub format-is_plain :
    (name : List ℕ) → is_plain name ≡ true → format false name ≡ done (string_of name)
unfolding is_plain format string_of
format-is_plain [] h = absurd (ground arith)
format-is_plain (x ∷ xs) h = ground (arith, h, format-is_plain xs)

pub format-Runs : (name : List ℕ) → Runs Unit (λ _. Unit) (format false name)
format-Runs name = anything (format false name)
  where
    anything : (r : Run (List ℕ)) → Runs Unit (λ _. Unit) r
    anything (done a) = tt
    anything fault = tt
    anything spins = tt
    anything waits = tt

-- A text that is shorter than the array is a string of it.
pub is_string-append :
    (n : ℕ) (text rest : List ℕ) → length text < n → is_string n (text ++ 0 ∷ rest) ≡ true
unfolding is_string
is_string-append zero text rest h = absurd (omega arith)
is_string-append (suc n) [] rest h = refl
is_string-append (suc n) (x ∷ xs) rest h = ground (arith, is_string-append n xs rest (omega arith))

length-take_le : (n : ℕ) (xs : List ℕ) → length (take n xs) ≤ n
length-take_le zero xs = omega arith
length-take_le (suc n) [] = omega arith
length-take_le (suc n) (x ∷ xs) = omega (arith, length-take_le n xs)

pub print_name-Runs :
    (X : Type 0) (old fmt : List ℕ)
    → Runs X (λ _. Unit) (format false fmt)
    → Runs X (λ text. is_string name_size text ≡ true) (print_name old fmt)
unfolding print_name write_string
print_name-Runs X old fmt h =
    Runs-bind X (λ _. Unit) (λ text. is_string name_size text ≡ true) (format false fmt) _ h
      λ text _. is_string-append name_size (take 31 text) _ (omega (arith, length-take_le 31 text))

-- A printed string is found under the name it was printed from.
same_name-string : (name rest : List ℕ) → same_name (string_of name ++ 0 ∷ rest) name ≡ true
unfolding same_name string_of
same_name-string [] rest = refl
same_name-string (x ∷ xs) rest = ground (arith, same_name-string xs rest)

take-all : (n : ℕ) (xs : List ℕ) → length xs ≤ n → take n xs ≡ xs
take-all zero [] h = refl
take-all zero (x ∷ xs) h = absurd (omega arith)
take-all (suc n) [] h = refl
take-all (suc n) (x ∷ xs) h = ap (λ t. x ∷ t) (take-all n xs (omega arith))

-- The array after a name that is short enough was printed into it.
abbrev pub named : List ℕ → List ℕ → List ℕ
named old name = write_string old (string_of name)

pub print_name-is_plain :
    (old name : List ℕ)
    → is_plain name ≡ true
    → length (string_of name) ≤ 31
    → print_name old name ≡ done (named old name)
unfolding print_name
print_name-is_plain old name plain short =
    rw (format-is_plain name plain, take-all 31 (string_of name) short) refl

pub named-same : (old name : List ℕ) → same_name (named old name) name ≡ true
unfolding write_string
named-same old name = same_name-string name _
