-- ===== src/Controller/Labels/Laws.antt =====
-- internal/controller/labels.go: the length, the characters and the ends of a label id.
use simple_volume.Base.{
  suc, zero, ◌≡◌, refl, ◌≢◌, inl, inr, ℕ, ◌≤◌, Bool, true, false, ◌&&◌, [], ◌∷◌, if◌then◌else◌,
  arith, Bool-cases, All, length, take, ltb,
}
use simple_volume.Text.{Text, codes, is_empty, trim, trim_left, trim_right, to_lower, replace_char}
use simple_volume.Text.Order.{is_empty_iff}
use simple_volume.Controller.Labels.{
  is_label_char, replace_unsafe, is_dash_or_dot, clean_label_id, volume_label_id,
}

-- The first character, if there is one, does not satisfy `p`.
abbrev pub Starts : (ℕ → Bool) → Text → Type 0
Starts p [] = Unit
Starts p (c ∷ s) = p c ≡ false

-- The last character, if there is one, does not satisfy `p`.
abbrev pub Ends : (ℕ → Bool) → Text → Type 0
Ends p [] = Unit
Ends p (c ∷ []) = p c ≡ false
Ends p (c ∷ d ∷ s) = Ends p (d ∷ s)

abbrev pub AllLabel : Text → Type 0
AllLabel = All (λ c. is_label_char c ≡ true)

-- A character other than a dash or a dot at both ends, 1 to 45 characters, and no other character
-- than letters, digits, underscores, dots and dashes.
pub record LabelId (id : Text) : Type 0 where
  pub nonempty : id ≢ []
  pub short : length id ≤ 45
  pub valid : AllLabel id
  pub starts : Starts is_dash_or_dot id
  pub ends : Ends is_dash_or_dot id

module _ (p : ℕ → Bool) where
  pub trim_left-Starts : (s : Text) → Starts p (trim_left p s)
  unfolding trim_left
  trim_left-Starts [] = tt
  trim_left-Starts (c ∷ s) = elim (Bool-cases (p c)) [
    | inl e ↦ rw e (trim_left-Starts s)
    | inr e ↦ rw e e
  ]

  pub trim_left-id : (s : Text) → Starts p s → trim_left p s ≡ s
  unfolding trim_left
  trim_left-id [] h = refl
  trim_left-id (c ∷ s) h = let e : p c ≡ false = h in rw e refl

  trim_cons-Ends :
      (c : ℕ) (rest : Text) → Ends p rest → Ends p (if is_empty rest && p c then [] else c ∷ rest)
  unfolding is_empty
  trim_cons-Ends c [] h = elim (Bool-cases (p c)) [ inl e ↦ rw e tt | inr e ↦ rw e e ]
  trim_cons-Ends c (d ∷ rest) h = h

  pub trim_right-Ends : (s : Text) → Ends p (trim_right p s)
  unfolding trim_right
  trim_right-Ends [] = tt
  trim_right-Ends (c ∷ s) = trim_cons-Ends c (trim_right p s) (trim_right-Ends s)

  pub trim_right-id : (s : Text) → Ends p s → trim_right p s ≡ s
  unfolding trim_right is_empty
  trim_right-id [] h = refl
  trim_right-id (c ∷ []) h = let e : p c ≡ false = h in rw e refl
  trim_right-id (c ∷ d ∷ s) h = rw (trim_right-id (d ∷ s) h) refl

  -- A string whose first character stays is not trimmed away.
  kept_cons :
      (b : Bool) (c : ℕ) (rest : Text)
      → p c ≡ false
      → (if b && p c then [] else c ∷ rest) ≡ c ∷ rest
  kept_cons true c rest h = rw h refl
  kept_cons false c rest h = refl

  pub trim_right-Starts : (s : Text) → Starts p s → Starts p (trim_right p s)
  unfolding trim_right
  trim_right-Starts [] h = tt
  trim_right-Starts (c ∷ s) h = rw (kept_cons (is_empty (trim_right p s)) c (trim_right p s) h) h

  trim_right-nonempty : (s : Text) → s ≢ [] → Starts p s → trim_right p s ≢ []
  unfolding trim_right
  trim_right-nonempty [] n h e = n refl
  trim_right-nonempty (c ∷ s) n h e =
      ground (arith, kept_cons (is_empty (trim_right p s)) c (trim_right p s) h)

  pub trim_left-All : (s : Text) → AllLabel s → AllLabel (trim_left p s)
  unfolding trim_left
  trim_left-All [] h = tt
  trim_left-All (c ∷ s) h = elim (Bool-cases (p c)) [
    | inl e ↦ rw e (trim_left-All s h.1)
    | inr e ↦ rw e h
  ]

  pub trim_right-All : (s : Text) → AllLabel s → AllLabel (trim_right p s)
  unfolding trim_right
  trim_right-All [] h = tt
  trim_right-All (c ∷ s) h = elim (Bool-cases (is_empty (trim_right p s) && p c)) [
    | inl e ↦ rw e tt
    | inr e ↦ rw e (h.0, trim_right-All s h.1)
  ]

  trim_right-length : (s : Text) → length (trim_right p s) ≤ length s
  unfolding trim_right
  trim_right-length [] = omega arith
  trim_right-length (c ∷ s) = ground (arith, trim_right-length s)

take-length : (n : ℕ) (s : Text) → length (take n s) ≤ n
take-length zero s = omega arith
take-length (suc n) [] = omega arith
take-length (suc n) (c ∷ s) = omega (arith, take-length n s)

take-AllLabel : (n : ℕ) (s : Text) → AllLabel s → AllLabel (take n s)
take-AllLabel zero s h = tt
take-AllLabel (suc n) [] h = tt
take-AllLabel (suc n) (c ∷ s) h = (h.0, take-AllLabel n s h.1)

dash_valid : is_label_char b'-' ≡ true
unfolding is_label_char
dash_valid = refl

replace_unsafe-AllLabel : (in_run : Bool) (s : Text) → AllLabel (replace_unsafe in_run s)
unfolding replace_unsafe
replace_unsafe-AllLabel in_run [] = tt
replace_unsafe-AllLabel in_run (c ∷ s) = elim (Bool-cases (is_label_char c)) [
  | inl e ↦ rw e (e, replace_unsafe-AllLabel false s)
  | inr e ↦ rw e (after_other in_run (replace_unsafe-AllLabel true s))
]
  where
    after_other :
        (b : Bool)
        → AllLabel (replace_unsafe true s)
        → AllLabel (if b then replace_unsafe true s else b'-' ∷ replace_unsafe true s)
    after_other true h = h
    after_other false h = (dash_valid, h)

-- A long id is cut to a valid one.
cut-LabelId :
    (id : Text)
    → id ≢ []
    → AllLabel id
    → Starts is_dash_or_dot id
    → LabelId (trim is_dash_or_dot (take 45 id))
unfolding trim
cut-LabelId [] n v h = absurd (n refl)
cut-LabelId (c ∷ id) n v h =
    let s : Text = take 45 (c ∷ id) in
    rw (trim_left-id is_dash_or_dot s h) (record {
      nonempty = trim_right-nonempty is_dash_or_dot s (λ e. cc) h;
      short = omega (arith, trim_right-length is_dash_or_dot s, take-length 45 (c ∷ id));
      valid = trim_right-All is_dash_or_dot s (take-AllLabel 45 (c ∷ id) v);
      starts = trim_right-Starts is_dash_or_dot s h;
      ends = trim_right-Ends is_dash_or_dot s;
    })

volume-LabelId : LabelId (codes "volume")
unfolding is_label_char is_dash_or_dot
volume-LabelId = record {
  nonempty = λ e. cc;
  short = omega arith;
  valid = (refl, (refl, (refl, (refl, (refl, (refl, tt))))));
  starts = refl;
  ends = refl;
}

-- What is left of `VolumeLabelID` after the replacements.
finish : Text → Text
unfolding trim
finish s =
    let id = trim is_dash_or_dot s in
    if is_empty id
    then codes "volume"
    else if ltb 45 (length id)
    then trim is_dash_or_dot (take 45 id)
    else id

finish-LabelId : (s : Text) → AllLabel s → LabelId (finish s)
unfolding finish trim
finish-LabelId s v =
    let id : Text = trim is_dash_or_dot s in
    let starts : Starts is_dash_or_dot id =
      trim_right-Starts is_dash_or_dot (trim_left is_dash_or_dot s)
        (trim_left-Starts is_dash_or_dot s) in
    let valid : AllLabel id =
      trim_right-All is_dash_or_dot (trim_left is_dash_or_dot s)
        (trim_left-All is_dash_or_dot s v) in
    let ends : Ends is_dash_or_dot id =
      trim_right-Ends is_dash_or_dot (trim_left is_dash_or_dot s) in
    elim (Bool-cases (is_empty id)) [
      | inl e ↦ rw e volume-LabelId
      | inr e ↦
          let nonempty : id ≢ [] = ground (arith, is_empty_iff id) in
          elim (Bool-cases (ltb 45 (length id))) [
            | inl f ↦ rw (e, f) (cut-LabelId id nonempty valid starts)
            | inr f ↦
                rw (e, f)
                  (record {
                    nonempty = nonempty;
                    short = ground arith;
                    valid = valid;
                    starts = starts;
                    ends = ends;
                  })
          ]
    ]

-- Whatever the names of a volume and of its namespace, its label id has 1 to 45 characters, each a
-- letter, a digit, an underscore, a dot or a dash, and neither a dash nor a dot is at an end.
pub volume_label_id-LabelId : (namespace name : Text) → LabelId (volume_label_id namespace name)
unfolding volume_label_id clean_label_id finish
volume_label_id-LabelId namespace name =
    finish-LabelId _ (replace_unsafe-AllLabel false (replace_char b'/' b'.' (to_lower _)))
