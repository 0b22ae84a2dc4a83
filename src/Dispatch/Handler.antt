-- ===== src/Dispatch/Handler.antt =====
-- plugin-dispatch-kata/cpp/src/handler.hpp: the handler interface. A handler is a record of its
-- virtual functions. `process` is not const: it may change the state `W` of the handlers.
use principal_katas.Prelude.{ℕ, ◌≡◌, Bool, true, false, List, [], ◌∷◌}
use principal_katas.Dispatch.Packet.{Packet, Result}

pub record Registration : Type 0 where
  pub key : ℕ
  pub residual : Bool

-- `Declaring`, with the functions of its base `Handler`
pub record Declaring (W : Type 0) : Type 0 where
  pub matches : Packet → Bool
  pub process : Packet → W → Result × W
  pub declare : Registration

module _ {W : Type 0} where
  -- What a table relies on: a handler matches only packets with its declared key, and all of them
  -- if it declares no residual predicate.
  pub record IsHonest (h : Declaring W) : Type 0 where
    pub keyed : (p : Packet) → h.matches p ≡ true → p.protocol ≡ h.declare.key
    pub pure :
        (p : Packet) → h.declare.residual ≡ false → p.protocol ≡ h.declare.key → h.matches p ≡ true

  abbrev pub AllHonest : List (Declaring W) → Type 0
  AllHonest [] = Unit
  AllHonest (h ∷ hs) = IsHonest h × AllHonest hs
