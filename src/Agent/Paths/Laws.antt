-- ===== src/Agent/Paths/Laws.antt =====
-- The characters of a segment, and its ends.
use simple_volume.Base.{
  ◌≡◌, refl, subst, ◌≢◌, ℕ, true, false, [], ◌∷◌, map, arith, inl, inr, Bool-cases, All,
}
use simple_volume.Text.{Text, codes, is_empty, trim, trim_left, trim_space}
use simple_volume.Text.Order.{is_empty_iff}
use simple_volume.Controller.Labels.{is_label_char, is_dash_or_dot}
use simple_volume.Controller.Labels.Laws.{
  Starts, Ends, AllLabel, trim_left-Starts, trim_right-Ends, trim_right-Starts, trim_left-All,
  trim_right-All,
}
use simple_volume.Agent.Paths.{remove_double_dots, safe_char, clean_segment, safe_segment}

-- A name that is not empty, has letters, digits, underscores, dots and dashes only, so no slash, and
-- has neither a dot nor a dash at its ends.
pub record Segment (s : Text) : Type 0 where
  pub nonempty : s ≢ []
  pub valid : AllLabel s
  pub starts : Starts is_dash_or_dot s
  pub ends : Ends is_dash_or_dot s
  pub no_slash : All (λ c. c ≢ b'/') s

dash : is_label_char b'-' ≡ true
unfolding is_label_char
dash = refl

slash : is_label_char b'/' ≡ false
unfolding is_label_char
slash = refl

not_slash : (c : ℕ) → is_label_char c ≡ true → c ≢ b'/'
not_slash c h e =
    let f : is_label_char b'/' ≡ true = subst (λ d. is_label_char d ≡ true) e h in cc (f, slash)

map-safe_char-AllLabel : (s : Text) → AllLabel (map safe_char s)
unfolding safe_char
map-safe_char-AllLabel [] = tt
map-safe_char-AllLabel (c ∷ s) = elim (Bool-cases (is_label_char c)) [
  | inl e ↦ rw e (e, map-safe_char-AllLabel s)
  | inr e ↦ rw e (dash, map-safe_char-AllLabel s)
]

AllLabel-no_slash : (s : Text) → AllLabel s → All (λ c. c ≢ b'/') s
AllLabel-no_slash [] h = tt
AllLabel-no_slash (c ∷ s) h = (not_slash c h.0, AllLabel-no_slash s h.1)

default-Segment : Segment (codes "default")
unfolding is_label_char is_dash_or_dot
default-Segment =
    let valid : AllLabel (codes "default") =
      (refl, (refl, (refl, (refl, (refl, (refl, (refl, tt))))))) in
    record {
      nonempty = λ e. cc;
      valid = valid;
      starts = refl;
      ends = refl;
      no_slash = AllLabel-no_slash (codes "default") valid;
    }

clean_segment-Segment : (s : Text) → clean_segment s ≢ [] → Segment (clean_segment s)
unfolding clean_segment trim
clean_segment-Segment s h =
    let t : Text = map safe_char (remove_double_dots (trim_space s)) in
    let u : Text = trim_left is_dash_or_dot t in
    let valid : AllLabel (clean_segment s) =
      trim_right-All is_dash_or_dot u (trim_left-All is_dash_or_dot t (map-safe_char-AllLabel _)) in
    record {
      nonempty = h;
      valid = valid;
      starts = trim_right-Starts is_dash_or_dot u (trim_left-Starts is_dash_or_dot t);
      ends = trim_right-Ends is_dash_or_dot u;
      no_slash = AllLabel-no_slash (clean_segment s) valid;
    }

-- Whatever the namespace or the volume is called, its segment is not empty, has no slash and no other
-- character than letters, digits, underscores, dots and dashes, and has neither a dot nor a dash at its
-- ends.
pub safe_segment-Segment : (s : Text) → Segment (safe_segment s)
unfolding safe_segment
safe_segment-Segment s = elim (Bool-cases (is_empty (clean_segment s))) [
  | inl e ↦ rw e default-Segment
  | inr e ↦ rw e (clean_segment-Segment s (ground (arith, is_empty_iff (clean_segment s))))
]
