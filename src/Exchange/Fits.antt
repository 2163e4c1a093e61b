-- ===== src/Exchange/Fits.antt =====
-- Attributes in the range of the fields that carry them: the answers of `handle_getattr_request`.
use mathlib.Core.Path.{subst}
use net_bsd_wii_joybus.Base.{
  sym, ap, ◌∙◌, ℕ, ◌^◌, ◌<◌, ◌≡◌, ◌==◌, refl, arith, All, Option, none, some, List, get_elem?,
  Option-cases, inl, inr,
}
use net_bsd_wii_joybus.Message.{AttrResp}
use net_bsd_wii_joybus.Message.Layout.RoundTrip.{is_word, is_dword, no_values, more_values}
use net_bsd_wii_joybus.Message.Structs.Responses.{getattr_resp}
use net_bsd_wii_joybus.Server.{Entry, State, done, deref, find_by_id}
use net_bsd_wii_joybus.Server.Search.{find_index-some, All-get_elem?}
use net_bsd_wii_joybus.Server.Handlers.{fill_attr, attr_resp, handle_getattr}
use net_bsd_wii_joybus.Exchange.Remote.{Fits}

-- An entry whose attributes are in the range of their C types.
pub record IsTyped (e : Entry) : Type 0 where
  pub va_type_lt : e.va_type < 2 ^ 32
  pub va_mode_lt : e.va_mode < 2 ^ 32
  pub va_nlink_lt : e.va_nlink < 2 ^ 32
  pub va_uid_lt : e.va_uid < 2 ^ 32
  pub va_gid_lt : e.va_gid < 2 ^ 32
  pub va_gen_lt : e.va_gen < 2 ^ 64
  pub va_fsid_lt : e.va_fsid < 2 ^ 64
  pub va_fileid_lt : e.va_fileid < 2 ^ 32
  pub va_size_lt : e.va_size < 2 ^ 64
  pub va_flags_lt : e.va_flags < 2 ^ 64
  pub va_rdev_lt : e.va_rdev < 2 ^ 64
  pub va_bytes_lt : e.va_bytes < 2 ^ 64
  pub va_filerev_lt : e.va_filerev < 2 ^ 64
  pub va_vaflags_lt : e.va_vaflags < 2 ^ 64
  pub va_spare_lt : e.va_spare < 2 ^ 64

fill_attr-Fits :
    (junk : AttrResp) (e : Entry)
    → IsTyped e
    → junk.va_blocksize < 2 ^ 32
    → Fits getattr_resp (fill_attr junk e)
unfolding fill_attr
fill_attr-Fits junk e t low = more_values (is_word (omega arith)) (
    more_values (is_word t.va_type_lt) (
      more_values (is_word t.va_mode_lt) (
        more_values (is_word t.va_nlink_lt) (
          more_values (is_word t.va_uid_lt) (
            more_values (is_word t.va_gid_lt) (
              more_values (is_dword t.va_gen_lt) (
                more_values (is_dword t.va_fsid_lt) (
                  more_values (is_word t.va_fileid_lt) (
                    more_values (is_dword t.va_size_lt) (
                      more_values (is_word low) (
                        more_values (is_dword t.va_flags_lt) (
                          more_values (is_dword t.va_rdev_lt) (
                            more_values (is_dword t.va_bytes_lt) (
                              more_values (is_dword t.va_filerev_lt) (
                                more_values (is_dword t.va_vaflags_lt)
                                  (more_values (is_dword t.va_spare_lt) no_values))))))))))))))))

missing-Fits :
    (junk : AttrResp) → Fits getattr_resp junk → Fits getattr_resp (record junk { exists = 0 })
missing-Fits junk (more_values h hs) = more_values (is_word (omega arith)) hs

-- What `handle_getattr_request` answers for the entry that `find_by_id` returned.
abbrev pub attr_at : List Entry → AttrResp → Option ℕ → AttrResp
attr_at es junk none = record junk { exists = 0 }
attr_at es junk (some i) = elim (get_elem? es i) [ none ↦ junk | some e ↦ fill_attr junk e ]

attr_at-found :
    (es : List Entry) (junk : AttrResp) (i : ℕ) (e : Entry)
    → get_elem? es i ≡ some e
    → attr_at es junk (some i) ≡ fill_attr junk e
attr_at-found es junk i e got = rw (got, attr_at) refl

attr_resp-found :
    (es : List Entry) (junk : AttrResp) (i : ℕ) (e : Entry)
    → get_elem? es i ≡ some e
    → attr_resp es junk (some i) ≡ done (attr_at es junk (some i))
unfolding attr_resp
attr_resp-found es junk i e got = rw (got, deref, attr_at) refl

module _ (s : State) (junk : AttrResp) (typed : All IsTyped s.entries)
    (fits : Fits getattr_resp junk) (low : junk.va_blocksize < 2 ^ 32) (id : ℕ) where
  abbrev pub answer : AttrResp
  answer = attr_at s.entries junk (find_by_id id s.entries)

  pub answer-Fits : Fits getattr_resp answer
  unfolding find_by_id
  answer-Fits = elim (Option-cases (find_by_id id s.entries)) [
    | inl gone ↦
        subst (Fits getattr_resp) (sym (ap (attr_at s.entries junk) gone)) (missing-Fits junk fits)
    | inr (i, found) ↦
        let (e, got, mine, now) = find_index-some (λ e. e.va_fileid == id) s.entries found in
        subst (Fits getattr_resp)
          (sym (ap (attr_at s.entries junk) found ∙ attr_at-found s.entries junk i e got))
          (fill_attr-Fits junk e (All-get_elem? IsTyped s.entries i typed got) low)
  ]

  pub handle_getattr-answer : handle_getattr junk (record { fileid = id }) s ≡ done (answer, s)
  unfolding handle_getattr find_by_id
  handle_getattr-answer = elim (Option-cases (find_by_id id s.entries)) [
    | inl gone ↦ rw gone (unfold attr_resp in refl)
    | inr (i, found) ↦
        let (e, got, mine, now) = find_index-some (λ e. e.va_fileid == id) s.entries found in
        rw (found, attr_resp-found s.entries junk i e got) refl
  ]
