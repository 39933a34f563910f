-- ===== src/Controller/Signature/RoundTrip.antt =====
-- The ids and modes of a signature, read as annotations.
use simple_volume.Base.{
  ℕ, ◌-◌, ◌^◌, ◌≡◌, refl, sym, ap, subst, ◌∙◌, ◌≤◌, false, [], ◌∷◌, Option, none, some, arith, All,
  All-map,
}
use simple_volume.Base.Dict.{Dict}
use simple_volume.Base.Int.{ℤ, pos, negsuc}
use simple_volume.Text.{Text, is_empty, is_space, trim, trim_space, trim_left, trim_right}
use simple_volume.Text.Number.{parse_int, parse_uint, print_digits, print_int}
use simple_volume.Text.Number.RoundTrip.{
  octal_digits, decimal_digits, parse_uint-print_digits, parse_int-print_int,
}
use simple_volume.Controller.Annotations.{annotation}
use simple_volume.Controller.Labels.Laws.{Starts, Ends, trim_left-id, trim_right-id}
use simple_volume.Controller.Ownership.{
  parse_optional_id, parse_optional_mode, annotation_owner_uid, annotation_owner_gid,
  annotation_file_mode, annotation_dir_mode, ownership_policy_from_annotations,
}
use simple_volume.Controller.Replication.{OwnershipPolicy}
use simple_volume.Controller.Signature.{optional_int64_string, optional_mode_string}

pos_inj : {m n : ℕ} → pos m ≡ pos n → m ≡ n
pos_inj e = cc

digit_not_space : (c : ℕ) → (b'0' ≤ c) × (c ≤ b'9') → is_space c ≡ false
unfolding is_space
digit_not_space c h = ground (arith, h.0, h.1)

All-Starts : (s : Text) → All (λ c. is_space c ≡ false) s → Starts is_space s
All-Starts [] h = tt
All-Starts (c ∷ s) h = h.0

All-Ends : (s : Text) → All (λ c. is_space c ≡ false) s → Ends is_space s
All-Ends [] h = tt
All-Ends (c ∷ []) h = h.0
All-Ends (c ∷ d ∷ s) h = All-Ends (d ∷ s) h.1

trim_space_of_digits : (s : Text) → All (λ c. (b'0' ≤ c) × (c ≤ b'9')) s → trim_space s ≡ s
unfolding trim_space trim
trim_space_of_digits s h =
    let plain : All (λ c. is_space c ≡ false) s = All-map digit_not_space s h in
    rw (trim_left-id is_space s (All-Starts s plain)) (trim_right-id is_space s (All-Ends s plain))

-- An id, if there is one, is an `int64` that is not negative.
abbrev pub ValidId : Option ℤ → Type 0
ValidId none = Unit
ValidId (some n) = (m : ℕ) × (n ≡ pos m) × (m ≤ 2 ^ 63 - 1)

abbrev pub ValidMode : Option ℕ → Type 0
ValidMode none = Unit
ValidMode (some n) = n ≤ 4095

parse_id_value :
    (annotations : Dict Text Text) (key value : Text) (n : ℕ)
    → trim_space (annotation key annotations) ≡ value
    → is_empty value ≡ false
    → parse_int value ≡ some (pos n)
    → parse_optional_id annotations key ≡ some (some (pos n))
unfolding parse_optional_id
parse_id_value annotations key value n e h k = rw (e, h, k) (ground (arith))

parse_mode_value :
    (annotations : Dict Text Text) (key value : Text) (n : ℕ)
    → trim_space (annotation key annotations) ≡ value
    → is_empty value ≡ false
    → parse_uint 8 32 value ≡ some n
    → n ≤ 4095
    → parse_optional_mode annotations key ≡ some (some n)
unfolding parse_optional_mode
parse_mode_value annotations key value n e h k b = rw (e, h, k) (ground (arith, b))

trim_space-empty : trim_space [] ≡ []
unfolding trim_space trim trim_left trim_right
trim_space-empty = refl

parse_no_id :
    (annotations : Dict Text Text) (key : Text)
    → trim_space (annotation key annotations) ≡ []
    → parse_optional_id annotations key ≡ some none
unfolding parse_optional_id is_empty
parse_no_id annotations key e = rw e refl

parse_no_mode :
    (annotations : Dict Text Text) (key : Text)
    → trim_space (annotation key annotations) ≡ []
    → parse_optional_mode annotations key ≡ some none
unfolding parse_optional_mode is_empty
parse_no_mode annotations key e = rw e refl

parse_optional_id_lem :
    (annotations : Dict Text Text) (key : Text) (id : Option ℤ)
    → ValidId id
    → annotation key annotations ≡ optional_int64_string id
    → parse_optional_id annotations key ≡ some id
unfolding optional_int64_string print_int
parse_optional_id_lem annotations key none h e =
    parse_no_id annotations key (ap trim_space e ∙ trim_space-empty)
parse_optional_id_lem annotations key (some (negsuc n)) h e =
    absurd (let f : negsuc n ≡ pos h.0 = h.1 in cc)
parse_optional_id_lem annotations key (some (pos n)) h e =
    let bound : n ≤ 2 ^ 63 - 1 = subst (λ m. m ≤ 2 ^ 63 - 1) (pos_inj (sym h.1)) h.2 in
    let (nonempty, digits) = decimal_digits n in
    parse_id_value annotations key (print_digits 10 n) n
      (ap trim_space e ∙ trim_space_of_digits (print_digits 10 n) digits) nonempty
      (parse_int-print_int n bound)

parse_optional_mode_lem :
    (annotations : Dict Text Text) (key : Text) (mode : Option ℕ)
    → ValidMode mode
    → annotation key annotations ≡ optional_mode_string mode
    → parse_optional_mode annotations key ≡ some mode
unfolding optional_mode_string
parse_optional_mode_lem annotations key none h e =
    parse_no_mode annotations key (ap trim_space e ∙ trim_space-empty)
parse_optional_mode_lem annotations key (some n) h e =
    let (nonempty, digits) = octal_digits n in
    parse_mode_value annotations key (print_digits 8 n) n
      (ap trim_space e ∙ trim_space_of_digits (print_digits 8 n) digits) nonempty
      (parse_uint-print_digits 32 n (omega (arith, h))) h

-- A policy whose ids are not negative and fit an int64, and whose modes are at most 07777, is read back
-- from annotations that hold its ids and modes as the signature prints them.
pub ownership_policy_round_trip :
    (policy : OwnershipPolicy) (annotations : Dict Text Text)
    → ValidId policy.uid
    → ValidId policy.gid
    → ValidMode policy.file_mode
    → ValidMode policy.dir_mode
    → annotation annotation_owner_uid annotations ≡ optional_int64_string policy.uid
    → annotation annotation_owner_gid annotations ≡ optional_int64_string policy.gid
    → annotation annotation_file_mode annotations ≡ optional_mode_string policy.file_mode
    → annotation annotation_dir_mode annotations ≡ optional_mode_string policy.dir_mode
    → ownership_policy_from_annotations annotations ≡ some policy
unfolding ownership_policy_from_annotations
ownership_policy_round_trip policy annotations u g f d a b c e =
    rw
      (
        parse_optional_id_lem annotations annotation_owner_uid policy.uid u a,
        parse_optional_id_lem annotations annotation_owner_gid policy.gid g b,
        parse_optional_mode_lem annotations annotation_file_mode policy.file_mode f c,
        parse_optional_mode_lem annotations annotation_dir_mode policy.dir_mode d e,
      )
      refl
