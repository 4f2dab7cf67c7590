-- ===== src/Parser/Shown.antt =====
-- What `handle_svc_packet_entities` of crates/haste_core/src/parser.rs keeps: the container, and what
-- the visitor is shown of it.
use haste.Prelude.{length, ℕ, ◌≡◌, refl, ◌∙◌, ap, Option, none, some, if◌then◌else◌}
use haste.Prelude.Int.{ℤ}
use haste.Outcome.{ok, err, Result, success, failure}
use haste.Settles.{Settles}
use haste.Platform.{Platform, Floats}
use haste.BitReader.{BitReader}
use haste.Maps.{lookup, remove, lookup-remove, int_key}
use haste.Entities.{Entity, delta_update, delta_create, delta_leave, delta_delete}
use haste.Entities.Container.{EntityContainer, get}
use haste.Entities.Events.{Sound, Indexed, Indexed-remove}
use haste.FieldDecoder.{FieldDecodeContext}
use haste.Parser.{
  visitor_error, Parser, Visitor, Context, ParserError, container, with_container, on_entity,
  on_some_entity, remove_entity,
}

-- An entity that is created or updated is in the context, under its own index; one that is deleted or
-- leaves is not any more.
pub data Shown {f : Floats} (ctx : Context f) : ℕ → Entity f → Type 0 where
  created : (e : Entity f) → get ctx.entities e.index ≡ some e → Shown ctx delta_create e
  updated : (e : Entity f) → get ctx.entities e.index ≡ some e → Shown ctx delta_update e
  deleted : (e : Entity f) → get ctx.entities e.index ≡ none → Shown ctx delta_delete e
  left : (e : Entity f) → get ctx.entities e.index ≡ none → Shown ctx delta_leave e

pub present :
    {f : Floats} (self : EntityContainer f) (index : ℤ) (e : Entity f)
    → Indexed self.entities
    → get self index ≡ some e
    → get self e.index ≡ some e
unfolding get
present self index e h found = ap (λ i. lookup i self.entities) (h index e found) ∙ found

pub gone :
    {f : Floats} (self : EntityContainer f) (index : ℤ) (e : Entity f)
    → Indexed self.entities
    → lookup index self.entities ≡ some e
    → lookup e.index (remove index self.entities) ≡ none
gone self index e h found =
    ap (λ i. lookup i (remove index self.entities)) (h index e found)
    ∙ lookup-remove index index self.entities
    ∙ ap (λ b. if b then none else lookup index self.entities)
        ((int_key.same_iff index index).1 refl)

-- What every call of the visitor keeps where it is shown an entity.
abbrev pub KeptByVisitor : {f : Floats} (v : Visitor f) → (v.Self → Type 0) → Type 0
KeptByVisitor {f} v I =
    (self : v.Self) (ctx : Context f) (header : ℕ) (e : Entity f) (next : v.Self)
    → Shown ctx header e
    → I self
    → v.on_entity self ctx header e ≡ success next
    → I next

-- A sound container, a visitor with the property, and a context that is but for the entities as in
-- the parser `old`.
pub record Held {p : Platform} {v : Visitor p.floats} (I : v.Self → Type 0) (old self : Parser p v)
    : Type 0 where
  pub sound : Sound (container self)
  pub kept : I self.visitor
  pub rest : self.ctx ≡ record old.ctx { entities = self.ctx.entities }

module _ {p : Platform} {v : Visitor p.floats} (I : v.Self → Type 0) (keeps : KeptByVisitor v I)
    (old : Parser p v) where
  pub on_entity-Held :
      (header : ℕ) (self : Parser p v) (e : Entity p.floats)
      → Held I old self
      → Shown self.ctx header e
      → Settles (Held I old) (on_entity {p = p} {v = v} header self e)
  unfolding on_entity
  on_entity-Held header self e h shown = called (v.on_entity self.visitor self.ctx header e) refl
    where
      called :
          (r : Result v.Error v.Self)
          → v.on_entity self.visitor self.ctx header e ≡ r
          → Settles {E = ParserError p v.Error} {A = Parser p v} (Held I old) (elim r [
            | success visitor ↦ ok (record self { visitor = visitor })
            | failure x ↦ err (visitor_error x)
          ])
      called (success next) q = record {
        sound = h.sound;
        kept = keeps self.visitor self.ctx header e next shown h.kept q;
        rest = h.rest;
      }
      called (failure x) q = tt

  -- A container that is sound again, in the place of the old one.
  pub with_container-Held :
      (self : Parser p v) (st : EntityContainer p.floats × FieldDecodeContext p.floats)
      → Held I old self
      → Sound st
      → Held I old (with_container {p = p} {v = v} self st)
  with_container-Held self (entities, ctx) h s = record {
    sound = s;
    kept = h.kept;
    rest = ap (λ (c : Context p.floats). record c { entities = entities }) h.rest;
  }

  pub on_some_entity-Held :
      (header : ℕ) (self : Parser p v) (o : Option (Entity p.floats))
      → Held I old self
      → ((e : Entity p.floats) → o ≡ some e → Shown self.ctx header e)
      → Settles (Held I old) (on_some_entity {p = p} {v = v} header self o)
  on_some_entity-Held header self none h shown = h
  on_some_entity-Held header self (some e) h shown = on_entity-Held header self e h (shown e refl)

  pub remove_entity-Held :
      (header : ℕ) (self : Parser p v) (index : ℤ) (entities : EntityContainer p.floats)
      → ((ctx : Context p.floats) (e : Entity p.floats)
          → get ctx.entities e.index ≡ none
          → Shown ctx header e)
      → Held I old self
      → entities.entities ≡ remove index self.ctx.entities.entities
      → entities.field_paths ≡ self.ctx.entities.field_paths
      → Settles (Held I old) (
          remove_entity {p = p} {v = v} header self
            (lookup index self.ctx.entities.entities, entities))
  unfolding get
  remove_entity-Held header self index entities shown h same paths =
      on_some_entity-Held header _ (lookup index self.ctx.entities.entities)
        (with_container-Held self (entities, self.field_decode_ctx) h
          (record {
            indexed = rw same (Indexed-remove index self.ctx.entities.entities h.sound.indexed);
            clean = h.sound.clean;
            paths = ap length paths ∙ h.sound.paths;
          }))
        (λ e found.
          shown _ e
            (ap (lookup e.index) same ∙ gone self.ctx.entities index e h.sound.indexed found))

  -- Behind a step: the state is held.
  abbrev pub HeldBehind : Parser p v × BitReader p → Type 0
  HeldBehind r = Held I old r.0
