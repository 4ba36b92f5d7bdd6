-- ===== src/Identity/Freeze.antt =====
-- The freeze marker of ha_identity.go: what tripIdentityFreeze writes, and when
-- clearRepinnedIdentityFreeze lifts it.
use cluster_api_provider_kai.Prelude.{
  ℕ, true, false, none, some, [], ◌∷◌, Text, ◌≡◌, refl, ◌==◌, arith, has_char, ok,
  after_last-append,
}
use cluster_api_provider_kai.Session.{World, Api, Site, trip_freeze, clear_freeze}
use cluster_api_provider_kai.Identity.{
  is_uid_char, all_uid_chars, uid_shape, display_uid, identity_none, identity_malformed, sep_head,
  sep_tail, pin_key, frozen, recorded_pin, repinned, mismatch_value, trip_identity_freeze,
  set_annotation, pin_of, clear_repinned_identity_freeze,
}

uid_char-ne-sep : (c : ℕ) → is_uid_char c ≡ true → has_char sep_head (c ∷ []) ≡ false
unfolding is_uid_char has_char
uid_char-ne-sep c h = ground arith

no_sep_in_uid : (uid : Text) → all_uid_chars uid ≡ true → has_char sep_head uid ≡ false
unfolding all_uid_chars has_char
no_sep_in_uid [] h = refl
no_sep_in_uid (c ∷ s) h = ground (arith, uid_char-ne-sep c, no_sep_in_uid s)

no_sep_in_none : has_char sep_head identity_none ≡ false
unfolding has_char identity_none
no_sep_in_none = refl

no_sep_in_malformed : has_char sep_head identity_malformed ≡ false
unfolding has_char identity_malformed
no_sep_in_malformed = refl

no_sep_in_display : (uid : Text) → has_char sep_head (display_uid uid) ≡ false
unfolding display_uid uid_shape
no_sep_in_display uid = ground (arith, no_sep_in_uid uid, no_sep_in_none, no_sep_in_malformed)

no_sep_in_tail : has_char sep_head sep_tail ≡ false
unfolding has_char sep_tail
no_sep_in_tail = refl

-- The pin that the freeze marker records is read back from it, whatever the observed UID, the path
-- and the instant were.
pub recorded_pin-mismatch_value :
    (api : Api) (observed via pin : Text)
    → recorded_pin (mismatch_value api observed via pin) ≡ some (display_uid pin)
unfolding recorded_pin mismatch_value
recorded_pin-mismatch_value api observed via pin =
    after_last-append sep_head sep_tail _ (display_uid pin) no_sep_in_tail (no_sep_in_display pin)

-- The world after an operator set the pin.
abbrev pub with_pin : Text → World → World
with_pin q w = set_annotation pin_key q w

-- A mismatch found on a control plane that is not frozen, and whose marker could be written, freezes
-- it. Once the pin is set to any text, the next clearing pass, whose patch succeeds, lifts the freeze
-- exactly when that text is displayed otherwise than the pin that the mismatch was measured against,
-- and keeps the new pin.
pub trip_identity_freeze-repinned :
    (api : Api) (site : Site) (observed via pin q : Text) (w : World)
    → frozen w.kcp ≡ false
    → api.kcp_patch (trip_freeze site) ≡ none
    → api.kcp_patch clear_freeze ≡ none
    → let w' = trip_identity_freeze api site observed via pin w in
      let (r, w'') = clear_repinned_identity_freeze api (with_pin q w') in
      (frozen w'.kcp ≡ true)
      × (r ≡ ok tt)
      × (frozen w''.kcp ≡ (display_uid pin == display_uid q))
      × (pin_of w''.kcp ≡ q)
unfolding trip_identity_freeze clear_repinned_identity_freeze repinned
trip_identity_freeze-repinned api site observed via pin q w thawed written cleared = (
  ground arith,
  ground (arith, recorded_pin-mismatch_value api observed via pin),
  ground (arith, recorded_pin-mismatch_value api observed via pin),
  ground (arith, recorded_pin-mismatch_value api observed via pin),
)
