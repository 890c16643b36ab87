-- ===== src/KeyExchange/Mka/Tests.antt =====
-- Two nodes, 3 and 7, that exchange a key by MKA over the group of two elements.
use lib_smoke.Base.{
  ℕ, ◌≡◌, refl, arith, List, [], ◌∷◌, ◌++◌, Option, none, some, Bool, true, false, replicate,
  length, drop,
}
use lib_smoke.Telegram.{Telegram, of_raw}
use lib_smoke.PktWrapper
use lib_smoke.PktWrapper.{PktWrapper, Pkt}
use lib_smoke.NodeCounter.NodeSet.{Increasing, member, insert}
use lib_smoke.Sban.Toy.{plus, times, toy, toy_arithmetic, toy-Laws, toy-Further}
use lib_smoke.Sban.Mka as Library
use lib_smoke.Sban.Mka.{
  Context, set_part, broad_point, make_broadval, sum_points, remove_own, acc_broadval, compute_key,
}
use lib_smoke.KeyExchange.{key_completed}
use lib_smoke.KeyExchange.Bd2Utils.{filled}
use lib_smoke.KeyExchange.Mka.{
  Mka, create, init, init_part, crypto_broadcast, update, mka_packet, receive_all, crypto_update,
  receive_key, add_key, store, finish_step, finish,
}
use lib_smoke.KeyExchange.Mka.SameKey.{with_value, exchange-SameKey}
use lib_smoke.KeyExchange.Mka.Bounds.{IsValid}
use lib_smoke.KeyExchange.Mka.Steps.{Good}
use lib_smoke.KeyExchange.Mka.Update.{init-IsValid, update-Good}

abbrev junk : ℕ → Telegram
junk i = of_raw []

abbrev memory : List ℕ
memory = replicate 66 0

abbrev four : List ℕ
four = 4 ∷ []

abbrev blank : Context Bool Bool
blank = record { a = false; k = false; key = false; n = 0; r = 0 }

abbrev part : Context Bool Bool
part = record { a = true; k = true; key = false; n = 2; r = 0 }

abbrev with_key : Context Bool Bool
with_key = record part { key = true }

abbrev one : List ℕ
one = 1 ∷ []

abbrev nodes : List ℕ
nodes = 3 ∷ 7 ∷ []

nodes-Increasing : Increasing nodes
nodes-Increasing = omega arith

three : member 3 nodes ≡ true
unfolding member
three = refl

abbrev fresh : Mka Bool Bool ℕ
fresh = create 0 [] 0 blank 0

abbrev wrapper : PktWrapper
wrapper = PktWrapper.create 0

abbrev started : Bool × Mka Bool Bool ℕ × PktWrapper
started = init toy toy_arithmetic 3 junk memory true nodes fresh wrapper

init-IsValid_example : IsValid 3 started.1
unfolding init init_part crypto_broadcast Library.init set_part broad_point make_broadval
init-IsValid_example =
    init-IsValid toy toy_arithmetic 3 junk memory true nodes fresh started.1 wrapper started.2 refl
      nodes-Increasing three refl

-- the value of node 7, in the queue of node 3
abbrev arrived : PktWrapper
arrived = record wrapper {
  in_queue = record { cmd = mka_packet; src = 7; dest = 3; payload = 0 ∷ 4 ∷ replicate 65 0 } ∷ [];
}

started-IsValid : IsValid 3 started.1
unfolding init init_part crypto_broadcast Library.init set_part broad_point make_broadval
started-IsValid =
    init-IsValid toy toy_arithmetic 3 junk memory true nodes fresh started.1 wrapper started.2 refl
      nodes-Increasing three refl

update-Good_example :
    Good toy toy_arithmetic 3 junk memory true
      (update toy toy_arithmetic 3 junk memory true started.1 arrived)
update-Good_example =
    update-Good toy toy_arithmetic 3 junk memory true started.1 arrived started-IsValid (refl, tt)

-- node 7, and the value of node 3 in its queue
abbrev other : Bool × Mka Bool Bool ℕ × PktWrapper
other = init toy toy_arithmetic 7 junk memory true nodes fresh wrapper

abbrev heard : PktWrapper
heard = with_value 3 7 (filled memory four) wrapper

abbrev told : PktWrapper
told = with_value 7 3 (filled memory four) wrapper

abbrev after : {A : Type 0} → A → Option (Bool × A × PktWrapper) → Bool × A × PktWrapper
after a none = (false, a, wrapper)
after a (some r) = r

abbrev three_done : Bool × Mka Bool Bool ℕ × PktWrapper
three_done = after fresh (update toy toy_arithmetic 3 junk memory true started.1 told)

abbrev seven_done : Bool × Mka Bool Bool ℕ × PktWrapper
seven_done = after fresh (update toy toy_arithmetic 7 junk memory true other.1 heard)

exchange-SameKey_example :
    (started.2 ≡ (PktWrapper.write_all 3 junk wrapper mka_packet (0 ∷ filled memory four)).1)
    × (other.2 ≡ (PktWrapper.write_all 7 junk wrapper mka_packet (0 ∷ filled memory four)).1)
    × (three_done.1.status ≡ key_completed)
    × (seven_done.1.status ≡ key_completed)
    × (shared : List ℕ) × (three_done.1.key ≡ shared ++ drop (length shared) [])
    × (seven_done.1.key ≡ shared ++ drop (length shared) [])
unfolding init init_part crypto_broadcast Library.init set_part broad_point make_broadval update
    receive_all crypto_update receive_key add_key store finish_step finish member insert
    acc_broadval sum_points remove_own compute_key plus times filled
exchange-SameKey_example =
    exchange-SameKey toy toy_arithmetic toy-Laws toy-Further junk true 3 7 3 7 four four memory
      memory fresh started.1 three_done.1 fresh other.1 seven_done.1 wrapper started.2 wrapper
      three_done.2 wrapper other.2 wrapper seven_done.2 refl refl refl refl refl refl refl refl refl
      refl
