-- ===== src/KeyExchange/Mka/SameKey.antt =====
-- MKA between two nodes: both exchanges complete with the same key.
use lib_smoke.Base.{
  ℕ, ◌≡◌, sym, ◌∙◌, subst, arith, List, [], ◌∷◌, ◌++◌, some, Bool, true, length, drop,
}
use lib_smoke.Telegram.{Telegram}
use lib_smoke.PktWrapper
use lib_smoke.PktWrapper.{PktWrapper}
use lib_smoke.NodeCounter.NodeSet.{member}
use lib_smoke.Sban.{ok, Polarssl, Arithmetic}
use lib_smoke.Sban.Bd2.Agreement.{Laws}
use lib_smoke.Sban.Mka.{Context, set_part, make_broadval}
use lib_smoke.Sban.Mka.Rounds.{set_part-rounds}
use lib_smoke.Sban.Mka.SameKey.{Further, same_ok, make_broadval-first, compute_key-same}
use lib_smoke.KeyExchange.{key_completed}
use lib_smoke.KeyExchange.Bd2Utils.{filled}
use lib_smoke.KeyExchange.Mka.{Mka, bufsize, mka_packet, init, update}
use lib_smoke.KeyExchange.Mka.Begin.{init-Began}
use lib_smoke.KeyExchange.Mka.Pair.{begun, update-Finished}

-- a node is one of the two
second : (a b : ℕ) → member b (a ∷ b ∷ []) ≡ true
unfolding member
second a b = ground arith

first : (a b : ℕ) → member a (a ∷ b ∷ []) ≡ true
unfolding member
first a b = ground arith

-- a wrapper with the packet of a node's value in its queue
abbrev pub with_value : ℕ → ℕ → List ℕ → PktWrapper → PktWrapper
with_value src dest bytes v = record v {
  in_queue = record { cmd = mka_packet; src = src; dest = dest; payload = 0 ∷ bytes } ∷ [];
}

module _ {Mpi Point Rng : Type 0} (p : Polarssl Mpi Point Rng) (q : Arithmetic Mpi Point)
    (l : Laws p) (f : Further p q l) (junk : ℕ → Telegram) (available : Bool) where
  -- from two exchanges that have begun
  update-SameKey :
      (a b dest dest' len len' : ℕ) (zc zd mc md kc kd key key' : List ℕ)
      (c c1 c2 d d1 d2 : Context Mpi Point) (r0 r1 r2 s0 s1 s2 : Rng) (v v' w w' : PktWrapper)
      (sa sb : Mka Mpi Point Rng)
      → set_part p q (some c) 2 r0 ≡ ok (c1, r1)
      → set_part p q (some d) 2 s0 ≡ ok (d1, s1)
      → make_broadval p q (some c1) bufsize r1 ≡ ok (c2, zc, r2)
      → make_broadval p q (some d1) bufsize s1 ≡ ok (d2, zd, s2)
      → length kc ≡ bufsize
      → length kd ≡ bufsize
      → length (filled mc zc) ≡ bufsize
      → length (filled md zd) ≡ bufsize
      → update p q a junk mc available
          (begun a b key len kc c2 r2)
          (with_value b dest (filled md zd) v)
        ≡ some (true, sa, v')
      → update p q b junk md available
          (begun a b key' len' kd d2 s2)
          (with_value a dest' (filled mc zc) w)
        ≡ some (true, sb, w')
      → (sa.status ≡ key_completed)
        × (sb.status ≡ key_completed)
        × (shared : List ℕ) × (sa.key ≡ shared ++ drop (length shared) key)
        × (sb.key ≡ shared ++ drop (length shared) key')
  unfolding filled
  update-SameKey a b dest dest' len len' zc zd mc md kc kd key key' c c1 c2 d d1 d2 r0 r1 r2 s0 s1
        s2 v v' w w' sa sb ec ed bc bd room_c room_d full_c full_d ua ub =
      let (c3, r3, c4, r4, xa, aa, ka, key_a, done_a) =
        update-Finished p q a junk mc available a b len b dest key kc (filled md zd) c2 r2
          (second a b) room_c full_d v v' sa ua in
      let (d3, s3, d4, s4, xb, ab, kb, key_b, done_b) =
        update-Finished p q b junk md available a b len' a dest' key' kd (filled mc zc) d2 s2
          (first a b) room_d full_c w w' sb ub in
      let same =
        compute_key-same p q l f c c1 c2 c3 c4 d d1 d2 d3 d4 bufsize bufsize sa.keylen sb.keylen zc
          zd (drop (length zd) md) (drop (length zc) mc) xa xb r0 r1 r2 r3 r4 s0 s1 s2 s3 s4 ec ed
          bc bd aa ab ka kb in
      (done_a, done_b, xa, key_a, subst (λ x. sb.key ≡ x ++ drop (length x) key') (sym same) key_b)

  -- the value that `init` broadcast is the written point of the context
  sent_value :
      (c0 c c' : Context Mpi Point) (s0 s1 s2 : Rng) (z z' : List ℕ)
      → set_part p q (some c0) 2 s0 ≡ ok (c, s1)
      → make_broadval p q (some c) bufsize s1 ≡ ok (c', z, s2)
      → p.write_point c'.k bufsize ≡ ok z'
      → z ≡ z'
  sent_value c0 c c' s0 s1 s2 z z' part sent written =
      let (of, kept) =
        make_broadval-first p q l f c c' bufsize z s1 s2 (set_part-rounds p q c0 c 2 s0 s1 part).1
          sent in
      same_ok z z' (sym of ∙ written)

  -- Two nodes `a` and `b` exchange a key by MKA: `init` with these two nodes returns true for both, where
  -- no step is deferred. Then each has sent the other `0` and a buffer with the written point of its
  -- context, `za` and `zb`. If the buffers have 66 bytes, and each node finds the packet of the other in
  -- its queue, and `update` returns true for both, then both exchanges are complete, and the key of each
  -- begins with the same bytes, behind which is what its buffer held before. This is under what polarssl
  -- documents: the operations are those of a group, memory does not run out, and a point that was
  -- written is read back.
  pub exchange-SameKey :
      (a b dest dest' : ℕ) (za zb ma mb : List ℕ) (sa sa1 sa2 sb sb1 sb2 : Mka Mpi Point Rng)
      (wa wa1 va va' wb wb1 vb vb' : PktWrapper)
      → sa.next_step ≡ []
      → sb.next_step ≡ []
      → init p q a junk ma available (a ∷ b ∷ []) sa wa ≡ (true, sa1, wa1)
      → init p q b junk mb available (a ∷ b ∷ []) sb wb ≡ (true, sb1, wb1)
      → p.write_point sa1.ctx.k bufsize ≡ ok za
      → p.write_point sb1.ctx.k bufsize ≡ ok zb
      → length (filled ma za) ≡ bufsize
      → length (filled mb zb) ≡ bufsize
      → update p q a junk ma available sa1 (with_value b dest (filled mb zb) va)
        ≡ some (true, sa2, va')
      → update p q b junk mb available sb1 (with_value a dest' (filled ma za) vb)
        ≡ some (true, sb2, vb')
      → (wa1 ≡ (PktWrapper.write_all a junk wa mka_packet (0 ∷ filled ma za)).1)
        × (wb1 ≡ (PktWrapper.write_all b junk wb mka_packet (0 ∷ filled mb zb)).1)
        × (sa2.status ≡ key_completed)
        × (sb2.status ≡ key_completed)
        × (shared : List ℕ) × (sa2.key ≡ shared ++ drop (length shared) sa.key)
        × (sb2.key ≡ shared ++ drop (length shared) sb.key)
  exchange-SameKey a b dest dest' za zb ma mb sa sa1 sa2 sb sb1 sb2 wa wa1 va va' wb wb1 vb vb'
        none_a none_b ia ib pa pb full_a full_b ua ub =
      let (c, c1, r1, c2, xa, r2, kc, ec, bc, room_c, begun_a, sent_a) =
        init-Began p q a junk ma available a b sa sa1 wa wa1 none_a ia in
      let (d, d1, s1, d2, xb, s2, kd, ed, bd, room_d, begun_b, sent_b) =
        init-Began p q b junk mb available a b sb sb1 wb wb1 none_b ib in
      let value_a =
        sent_value c c1 c2 sa.rng r1 r2 xa za ec bc
          (subst (λ (s : Mka Mpi Point Rng). p.write_point s.ctx.k bufsize ≡ ok za) begun_a pa) in
      let value_b =
        sent_value d d1 d2 sb.rng s1 s2 xb zb ed bd
          (subst (λ (s : Mka Mpi Point Rng). p.write_point s.ctx.k bufsize ≡ ok zb) begun_b pb) in
      let (done_a, done_b, shared, key_a, key_b) =
        update-SameKey a b dest dest' sa.keylen sb.keylen za zb ma mb kc kd sa.key sb.key c c1 c2 d
          d1 d2 sa.rng r1 r2 sb.rng s1 s2 va va' vb vb' sa2 sb2 ec ed
          (subst (λ z. make_broadval p q (some c1) bufsize r1 ≡ ok (c2, z, r2)) value_a bc)
          (subst (λ z. make_broadval p q (some d1) bufsize s1 ≡ ok (d2, z, s2)) value_b bd) room_c
          room_d full_a full_b
          (subst
            (λ s.
              update p q a junk ma available s (with_value b dest (filled mb zb) va)
              ≡ some (true, sa2, va'))
            begun_a ua)
          (subst
            (λ s.
              update p q b junk mb available s (with_value a dest' (filled ma za) vb)
              ≡ some (true, sb2, vb'))
            begun_b ub) in
      (
        subst (λ z. wa1 ≡ (PktWrapper.write_all a junk wa mka_packet (0 ∷ filled ma z)).1) value_a
            sent_a,
        subst (λ z. wb1 ≡ (PktWrapper.write_all b junk wb mka_packet (0 ∷ filled mb z)).1) value_b
            sent_b,
        done_a,
        done_b,
        shared,
        key_a,
        key_b,
      )
