-- ===== src/Routes/Access/Steps.antt =====
-- Handlers step by step: entering a room that is open for writing, the checks, the actor, the operator, and
-- the hub's operation, each of which ends well where the rest does.
use loca.Base.{◌≡◌, String, Bool, true}
use loca.Hub.State.{Hub, is_writable}
use loca.Routes.Handler.{Status, Handler, Safe, bind-Safe, guard-Safe, guard, call, ◌>>=◌, ◌>>◌}
use loca.Routes.Access.{Request, enter, writable, actor, operator}
use loca.Routes.Access.Safety.{Sessionless, enter-Safe, actor-Safe, operator-Safe, writable-Safe}

module _ (P : Hub → Type 0) where
  -- The room is open for writing, beside the property.
  abbrev pub Writes : String → Hub → Type 0
  Writes room h = (is_writable h room ≡ true) × P h

  -- A handler that ends well wherever the hub meets `W`, and leaves `P`.
  unfoldable pub Fine : {B : Type 0} → (Hub → Type 0) → Handler B → Type 0
  Fine W m = (h : Hub) → W h → Safe P (λ _ h'. P h') (m h)

  module _ (free : Sessionless P) (q : Request) where
    Writes-free : (room : String) → Sessionless (Writes room)
    unfolding is_writable
    Writes-free room h s p = (p.0, free h s p.1)

    module _ {B : Type 0} where
      pub entered :
          (id : String) (k : String → Handler B)
          → ((room : String) → Fine (Writes room) (k room))
          → Fine P (enter q id >>= λ room. writable room >> k room)
      unfolding Fine
      entered id k rest h p =
          bind-Safe P _ _ (enter q id) _ h (enter-Safe P P (λ _ p. p) free q h id p) λ room h₁ p₁.
            bind-Safe P _ _ (writable room) _ h₁ (writable-Safe P P (λ _ p. p) free q h₁ room p₁.1)
              λ _ h₂ p₂. rest room h₂ p₂

      module _ (room : String) where
        pub checked :
            (b : Bool) (s : Status) (k : Handler B)
            → Fine (Writes room) k
            → Fine (Writes room) (guard b s >> k)
        unfolding Fine
        checked b s k rest h w =
            bind-Safe P _ _ (guard b s) (λ _. k) h (guard-Safe P (Writes room) (λ _ w. w.1) b s h w)
              λ _ h₁ w₁. rest h₁ w₁.1

        pub acting :
            (claimed : String) (k : String → Handler B)
            → ((by : String) → Fine (Writes room) (k by))
            → Fine (Writes room) (actor q claimed >>= k)
        unfolding Fine
        acting claimed k rest h w =
            bind-Safe P _ _ (actor q claimed) k h
              (actor-Safe P (Writes room) (λ _ w. w.1) (Writes-free room) q h claimed w)
              λ by h₁ w₁. rest by h₁ w₁.1

        pub asking :
            (by : String) (k : Bool → Handler B)
            → ((b : Bool) → Fine (Writes room) (k b))
            → Fine (Writes room) (operator q room by >>= k)
        unfolding Fine
        asking by k rest h w =
            bind-Safe P _ _ (operator q room by) k h
              (operator-Safe P (Writes room) (λ _ w. w.1) (Writes-free room) q h room by w)
              λ b h₁ w₁. rest b h₁ w₁.1

        -- The last two steps: the hub's operation, whose answer meets `N`, and the reply to it.
        pub finishing :
            {A : Type 0} (N : A → Type 0) (f : Hub → Hub × A) (k : A → Handler B)
            → ((h : Hub) → Writes room h → N (f h).1)
            → ((h : Hub) → Writes room h → P (f h).0)
            → ((a : A) → N a → Fine P (k a))
            → Fine (Writes room) (call f >>= k)
        unfolding Fine
        finishing N f k answer op reply h w = reply (f h).1 (answer h w) (f h).0 (op h w)
