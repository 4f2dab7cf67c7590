-- ===== src/Entities/Events.antt =====
-- Runs of the handlers of `EntityContainer` of crates/haste_core/src/entities.rs, one after the other.
use haste.Prelude.{
  ℕ, ◌≡◌, refl, sym, ◌∙◌, Bool, true, false, List, [], ◌∷◌, Option, none, some, length,
  if◌then◌else◌,
}
use haste.Prelude.Int.{ℤ}
use haste.Platform.{Platform, Floats}
use haste.Maps.{Map, lookup, insert, remove, lookup-insert, lookup-remove, int_key}
use haste.FieldDecoder.{FieldDecodeContext}
use haste.FieldDecoder.Skips.{IsClean}
use haste.Entities.{Entity, Parse, ◌>>=◌, pure}
use haste.Entities.Container.{
  EntityContainer, Known, State, handle_create, handle_create_with_filter, handle_update,
  handle_delete, handle_leave, clear,
}

-- What a packet asks of the container.
pub data Event (f : Floats) : Type 0 where
  create : ℤ → Known f → Event f
  create_with_filter : ℤ → Known f → (ℕ → Bool) → Event f
  update delete leave : ℤ → Event f
  clear_all : Event f

module _ {p : Platform} where
  unfoldable pub run : Event p.floats → State p → Parse p (State p)
  unfolding handle_create handle_create_with_filter handle_update handle_delete handle_leave clear
  run (create index known) st = handle_create index known st >>= λ r. pure r.1
  run (create_with_filter index known track) st =
      handle_create_with_filter index known track st >>= λ r. pure r.1
  run (update index) st = handle_update index st >>= λ r. pure r.1
  run (delete index) (self, ctx) = pure ((handle_delete index self).1, ctx)
  run (leave index) (self, ctx) = pure ((handle_leave index self).1, ctx)
  run clear_all (self, ctx) = pure (clear self, ctx)

  unfoldable pub run_all : List (Event p.floats) → State p → Parse p (State p)
  unfolding run
  run_all [] st = pure st
  run_all (e ∷ es) st = run e st >>= run_all es

-- Every entity is kept at its index.
abbrev pub Indexed : {f : Floats} → Map ℤ (Entity f) → Type 0
Indexed {f} entities = (i : ℤ) (e : Entity f) → lookup i entities ≡ some e → e.index ≡ i

-- The entities are kept at their indices, the buffer of the decoders is empty, and the slice of
-- paths has its length.
pub record Sound {f : Floats} (st : EntityContainer f × FieldDecodeContext f) : Type 0 where
  pub indexed : Indexed st.0.entities
  pub clean : IsClean st.1
  pub paths : length st.0.field_paths ≡ 4096

pub Indexed-insert :
    {f : Floats} (i : ℤ) (e : Entity f) (m : Map ℤ (Entity f))
    → e.index ≡ i
    → Indexed m
    → Indexed (insert i e m)
Indexed-insert {f} i e m at h j x found =
    either (int_key.same i j) refl (sym (lookup-insert i j e m) ∙ found)
  where
    either :
        (b : Bool)
        → int_key.same i j ≡ b
        → ◌≡◌ {A = Option (Entity f)} (if b then some e else lookup j m) (some x)
        → x.index ≡ j
    either true same r = let hit : e ≡ x = cc in rw (← hit) (at ∙ (int_key.same_iff i j).0 same)
    either false same r = h j x r

pub Indexed-remove : {f : Floats} (i : ℤ) (m : Map ℤ (Entity f)) → Indexed m → Indexed (remove i m)
Indexed-remove {f} i m h j x found = either (int_key.same i j) (sym (lookup-remove i j m) ∙ found)
  where
    either :
        (b : Bool)
        → ◌≡◌ {A = Option (Entity f)} (if b then none else lookup j m) (some x)
        → x.index ≡ j
    either true r = absurd (cc)
    either false r = h j x r

pub Indexed-empty : {f : Floats} → Indexed {f = f} []
unfolding lookup
Indexed-empty i e h = absurd (cc)

pub IsClean-again :
    {f : Floats} {ctx ctx' : FieldDecodeContext f} → ctx' ≡ ctx → IsClean ctx → IsClean ctx'
IsClean-again e c = rw e c
