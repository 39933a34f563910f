-- ===== src/Controller/Api/Keeps.antt =====
-- What a computation keeps: a reflexive and transitive relation between the states before and after,
-- with a rule for each way to build a computation.
use mathlib.Core.List.{append_assoc}
use simple_volume.Base.{
  ◌≡◌, refl, sym, ◌∙◌, ap, Bool, true, false, List, [], ◌++◌, All, All-append, if◌then◌else◌,
}
use simple_volume.Controller.Api.{Call, World, M, Result, ok, err, ◌>>=◌, resume}

pub record Preorder (R : World → World → Type 0) : Type 0 where
  pub reflexive : (w : World) → R w w
  pub transitive : (u v w : World) → R u v → R v w → R u w

abbrev pub Keeps : (World → World → Type 0) → {A : Type 0} → M A → Type 0
Keeps R m = (w : World) → R w (m w).1

module _ (R : World → World → Type 0) (o : Preorder R) where
  resume-Keeps :
      {A B : Type 0} (r : Result A) (v w : World) (f : A → M B)
      → R v w
      → ((a : A) → Keeps R (f a))
      → R v (resume r w f).1
  resume-Keeps (ok a) v w f h k = o.transitive v w _ h (k a w)
  resume-Keeps (err e) v w f h k = h

  pub bind-Keeps :
      {A B : Type 0} (m : M A) (f : A → M B)
      → Keeps R m
      → ((a : A) → Keeps R (f a))
      → Keeps R (m >>= f)
  bind-Keeps m f h k w = resume-Keeps (m w).0 w (m w).1 f (h w) k

pub if-Keeps :
    (R : World → World → Type 0) {A : Type 0} (b : Bool) (m n : M A)
    → Keeps R m
    → Keeps R n
    → Keeps R (if b then m else n)
if-Keeps R true m n h k = h
if-Keeps R false m n h k = k

-- The calls between two states, the last one first, all satisfy `P`.
pub record Adds (P : Call → Type 0) (v w : World) : Type 0 where
  pub calls : List Call
  pub added : w.history ≡ calls ++ v.history
  pub safe : All P calls

module _ (P : Call → Type 0) where
  Adds-trans : (u v w : World) → Adds P u v → Adds P v w → Adds P u w
  Adds-trans u v w a b = record {
    calls = b.calls ++ a.calls;
    added = b.added ∙ ap (λ h. b.calls ++ h) a.added ∙ sym (append_assoc b.calls a.calls u.history);
    safe = All-append P b.calls a.calls b.safe a.safe;
  }

  pub Adds-Preorder : Preorder (Adds P)
  Adds-Preorder = record {
    reflexive = λ w. record { calls = []; added = refl; safe = tt };
    transitive = Adds-trans;
  }
