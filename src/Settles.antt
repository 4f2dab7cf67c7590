-- ===== src/Settles.antt =====
-- Rules for an outcome that is no `stuck`, and whose value, if it is one, has a property.
use haste.Prelude.{Bool, true, false, if◌then◌else◌}
use haste.Outcome.{Outcome, ok, err, panic, stuck, map_err, ◌>>=◌ as bind}

-- It ends, and a value has the property.
abbrev pub Settles : {E A : Type 0} → (A → Type 0) → Outcome E A → Type 0
Settles Q (ok a) = Q a
Settles Q (err e) = Unit {0}
Settles Q panic = Unit {0}
Settles Q stuck = ⊥

abbrev pub Any : {A : Type 0} → A → Type 0
Any a = Unit {0}

pub Settles-bind :
    {E A B : Type 0} (P : A → Type 0) (Q : B → Type 0) (m : Outcome E A) (k : A → Outcome E B)
    → Settles P m
    → ((a : A) → P a → Settles Q (k a))
    → Settles Q (bind m k)
Settles-bind P Q (ok a) k h f = f a h
Settles-bind P Q (err e) k h f = tt
Settles-bind P Q panic k h f = tt
Settles-bind P Q stuck k h f = h

pub Settles-map_err :
    {E F A : Type 0} (Q : A → Type 0) (wrap : E → F) (m : Outcome E A)
    → Settles Q m
    → Settles Q (map_err wrap m)
Settles-map_err Q wrap (ok a) h = h
Settles-map_err Q wrap (err e) h = tt
Settles-map_err Q wrap panic h = tt
Settles-map_err Q wrap stuck h = h

pub Settles-weaken :
    {E A : Type 0} (P Q : A → Type 0) (m : Outcome E A)
    → Settles P m
    → ((a : A) → P a → Q a)
    → Settles Q m
Settles-weaken P Q (ok a) h f = f a h
Settles-weaken P Q (err e) h f = tt
Settles-weaken P Q panic h f = tt
Settles-weaken P Q stuck h f = h

pub Settles-if :
    {E A : Type 0} (Q : A → Type 0) (b : Bool) (m n : Outcome E A)
    → Settles Q m
    → Settles Q n
    → Settles Q (if b then m else n)
Settles-if Q true m n t u = t
Settles-if Q false m n t u = u

pub Settles-bind-map_err :
    {E F A B : Type 0} (P : A → Type 0) (Q : B → Type 0) (wrap : E → F) (m : Outcome E A)
    (k : A → Outcome F B)
    → Settles P m
    → ((a : A) → P a → Settles Q (k a))
    → Settles Q (bind (map_err wrap m) k)
Settles-bind-map_err P Q wrap m k h f =
    Settles-bind P Q (map_err wrap m) k (Settles-map_err P wrap m h) f
