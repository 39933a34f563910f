-- ===== src/Agent/Filter/Events.antt =====
-- The paths of events, joined to a directory.
use mathlib.Core.Path.{◌≡⟨◌⟩◌, ◌∎}
use mathlib.Core.List.{append-nil}
use simple_volume.Base.{
  ◌≡◌, refl, sym, ap, subst, ◌≢◌, ◌⊎◌, inl, inr, Bool, true, false, List, [], ◌∷◌, ◌++◌, arith, All,
}
use simple_volume.Text.{Text, text_eq, codes, has_prefix, join}
use simple_volume.Text.FilePath.{
  is_rooted, clean_parts, print_path, clean_path, join_path, is_inside,
}
use simple_volume.Text.FilePath.Laws.{IsName, CleanParts, clean_parts-CleanParts}
use simple_volume.Text.FilePath.Joins.{clean_path-join, clean_path_lem, clean_path_idempotent}
use simple_volume.Agent.Volumes.{is_invalid_pool}
use simple_volume.Agent.Volumes.Inside.{
  is_inside-append, join_path_two, valid_pool-nonempty, clean_path-join_path,
}
use simple_volume.Agent.Filter.{normalized, check_clean, event_text, normalize_event_path}

-- A path with no part that leads up.
pub record Downward (c : Text) : Type 0 where
  pub slash : Bool
  pub names : List Text
  pub printed : c ≡ print_path slash names
  pub plain : All IsName names
  pub nonempty : c ≢ []

rooted_names : (parts : List Text) → CleanParts true parts → All IsName parts
rooted_names [] h = tt
rooted_names (part ∷ parts) (inl h) = h
rooted_names (part ∷ parts) (inr h) = absurd (let e : true ≡ false = h.0.0 in cc)

check_clean-normalized : (s c : Text) → check_clean s ≡ normalized c → (c ≡ s) × (c ≢ [])
unfolding check_clean
check_clean-normalized s c h = (ground (arith), ground (arith))

leads_up :
    (s c : Text)
    → (has_prefix s (codes "../") ≡ true) ⊎ (s ≡ codes "..")
    → check_clean s ≢ normalized c
unfolding check_clean
leads_up s c (inl e) h = ground (arith)
leads_up s c (inr e) h = ground (arith)

check_clean-up :
    (parts : List Text) (c : Text)
    → check_clean (print_path false (codes ".." ∷ parts)) ≢ normalized c
unfolding print_path join has_prefix
check_clean-up [] c h = leads_up (codes "..") c (inr refl) h
check_clean-up (more ∷ parts) c h = leads_up _ c (inl refl) h

Downward-print_path :
    (rooted : Bool) (parts : List Text) (c : Text)
    → CleanParts rooted parts
    → check_clean (print_path rooted parts) ≡ normalized c
    → Downward c
Downward-print_path true parts c h k =
    let (e, n) = check_clean-normalized (print_path true parts) c k in
    record { slash = true; names = parts; printed = e; plain = rooted_names parts h; nonempty = n }
Downward-print_path false [] c h k =
    let (e, n) = check_clean-normalized (print_path false []) c k in
    record { slash = false; names = []; printed = e; plain = tt; nonempty = n }
Downward-print_path false (part ∷ parts) c (inl h) k =
    let (e, n) = check_clean-normalized (print_path false (part ∷ parts)) c k in
    record { slash = false; names = part ∷ parts; printed = e; plain = h; nonempty = n }
Downward-print_path false (part ∷ parts) c (inr h) k = absurd (
    check_clean-up parts c
      (subst (λ p. check_clean (print_path false (p ∷ parts)) ≡ normalized c) h.0.1 k))

pub normalize_event_path-Downward :
    (p c : Text) → normalize_event_path p ≡ normalized c → Downward c
unfolding normalize_event_path
normalize_event_path-Downward p c h =
    let s = event_text p in
    Downward-print_path (is_rooted s) (clean_parts s) c (clean_parts-CleanParts s)
      (subst (λ t. check_clean t ≡ normalized c) (clean_path_lem s) h)

is_inside_self : (s : Text) → is_inside s s ≡ true
unfolding is_inside
is_inside_self s = ground (arith)

joined_inside :
    (root : Text) (slash : Bool) (names : List Text)
    → is_invalid_pool (clean_path root) ≡ false
    → All IsName names
    → is_inside (clean_path root) (clean_path (clean_path root ++ b'/' ∷ print_path slash names))
      ≡ true
joined_inside root slash [] h k =
    let e : clean_path (clean_path root ++ b'/' ∷ print_path slash []) ≡ clean_path root =
      clean_path (clean_path root ++ b'/' ∷ print_path slash [])
      ≡⟨ clean_path-join (clean_path root) slash [] (valid_pool-nonempty (clean_path root) h) tt ⟩
        print_path (is_rooted (clean_path root)) (clean_parts (clean_path root) ++ [])
      ≡⟨ ap (print_path (is_rooted (clean_path root)))
          (append-nil (clean_parts (clean_path root))) ⟩
        print_path (is_rooted (clean_path root)) (clean_parts (clean_path root))
      ≡⟨ sym (clean_path_lem (clean_path root)) ⟩ clean_path (clean_path root)
      ≡⟨ clean_path_idempotent root ⟩ clean_path root ∎ in
    rw e (is_inside_self (clean_path root))
joined_inside root slash (name ∷ names) h k =
    rw (clean_path-join_path root slash name names h k)
      (is_inside-append (clean_path root) (join (codes "/") (name ∷ names)))

-- Whatever path an event of the network names, when the path is accepted and joined to a clean
-- directory other than "." and "/", the result is that directory or lies in it.
pub normalize_event_path-is_inside :
    (root p c : Text)
    → is_invalid_pool (clean_path root) ≡ false
    → normalize_event_path p ≡ normalized c
    → is_inside (clean_path root) (join_path (clean_path root ∷ c ∷ [])) ≡ true
normalize_event_path-is_inside root p c h k =
    let d : Downward c = normalize_event_path-Downward p c k in
    let e : clean_path (clean_path root ++ b'/' ∷ c)
        ≡ clean_path (clean_path root ++ b'/' ∷ print_path d.slash d.names) =
      ap (λ x. clean_path (clean_path root ++ b'/' ∷ x)) d.printed in
    rw (join_path_two (clean_path root) c (valid_pool-nonempty (clean_path root) h) d.nonempty, e)
      (joined_inside root d.slash d.names h d.plain)
