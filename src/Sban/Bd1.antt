-- ===== src/Sban/Bd1.antt =====
-- Project/libsmoke/libs/sknx/libs/sban/src/bd1.c: each party broadcasts a point, then a value made of
-- its neighbours' points, and computes the key from the values of all. `Mpi` stands for `mpi`.
pub mod Sum
pub mod SameKey
mod Tests
use lib_smoke.Base.{ℕ, zero, suc, ◌+◌, ◌-◌, ◌/◌, ◌%◌, List, Option, Bool, ltb, ◌==◌, if◌then◌else◌}
use lib_smoke.Sban.{
  bad_input_data, polarssl_error, Ret, ok, fail, and_then, or_old, not_null, Polarssl, Arithmetic,
}

-- `bd1_context`, without the curve
pub record Context (Mpi Point : Type 0) : Type 0 where
  pub r : Mpi
  pub z : Point
  pub x : Point

module _ {Mpi Point Rng : Type 0} (p : Polarssl Mpi Point Rng) (q : Arithmetic Mpi Point) where
  unfoldable pub init : Option (Context Mpi Point) → ℕ → Ret (Context Mpi Point)
  init ctx id = not_null ctx λ c.
      and_then (p.use_known_dp id)
        λ u. ok (record { r = p.zero_mpi; z = p.zero_point; x = p.zero_point })

  unfoldable pub gen_point :
      Option (Context Mpi Point) → ℕ → Rng → Ret (Context Mpi Point × List ℕ × Rng)
  gen_point ctx buflen rng = not_null ctx λ c.
      and_then (p.gen_keypair rng)
        λ g. and_then (p.write_point g.1 buflen) λ bytes. ok (record c { r = g.0 }, bytes, g.2)

  -- the secret times the difference of the neighbours' points
  unfoldable pub hide : Mpi → Point → Rng → Ret (Point × Rng)
  hide r difference rng =
      let neutral = and_then q.set_zero λ x. ok (x, rng) in
      if p.is_zero difference then neutral else p.mul r difference rng

  unfoldable pub gen_value :
      Option (Context Mpi Point) → List ℕ → ℕ → ℕ → Rng → Ret (Context Mpi Point × List ℕ × Rng)
  unfolding hide
  gen_value ctx buf buflen obuflen rng = not_null ctx λ c. and_then (q.read_next buf buflen) λ t.
      and_then (q.read_next t.1 buflen) λ t1. and_then (q.sub t1.0 t.0) λ z2.
        and_then (hide c.r z2 rng) λ x.
          and_then (p.write_point x.0 obuflen)
            λ bytes. ok (record c { z = t.0; x = x.0 }, bytes, x.1)

  -- The first term; the result of `ecp_set_zero` is not looked at.
  unfoldable pub first_term : Context Mpi Point → ℕ → Rng → Ret (Point × Rng)
  first_term c n rng = and_then (q.mul_int c.r n) λ e1.
      and_then (q.mod_order e1)
        λ e2. if p.is_null e2 then ok (or_old q.set_zero p.zero_point, rng) else p.mul e2 c.z rng

  -- the `for` loop of `bd1_compute_key` from `i` on, `rounds` rounds
  unfoldable pub add_values : ℕ → ℕ → ℕ → ℕ → Point → List ℕ → Rng → Ret (Point × Rng)
  add_values zero n i buflen key buf rng = ok (key, rng)
  add_values (suc rounds) n i buflen key buf rng = and_then (q.lset (n - i)) λ e1.
      and_then (q.read_next buf buflen) λ t. and_then (p.mul e1 t.0 rng) λ m.
        and_then (p.add key m.0)
          λ sum. and_then (p.copy sum) λ key'. add_values rounds n (i + 1) buflen key' t.1 m.1

  -- the point of the key
  unfoldable pub key_point : Context Mpi Point → List ℕ → ℕ → ℕ → Rng → Ret (Point × Rng)
  unfolding first_term add_values
  key_point c buf buflen n rng = and_then (first_term c n rng) λ h.
      let own = or_old (p.copy h.0) p.zero_point in
      let others = and_then (q.lset (n - 1)) λ e1.
        and_then (p.mul e1 c.x h.1)
          λ m. and_then (p.add h.0 m.0) λ key. add_values (n - 2) n 2 buflen key buf m.1 in
      if n == 2 then ok (own, h.1) else others

  -- The length and the bytes of the key; -1 is not a code of the library.
  unfoldable pub compute_key :
      Option (Context Mpi Point) → List ℕ → ℕ → ℕ → ℕ → Rng → Ret (ℕ × List ℕ × Rng)
  unfolding key_point
  compute_key ctx buf buflen n obuflen rng = not_null ctx λ c.
      and_then (key_point c buf buflen n rng) λ k.
        let key = p.x_of k.0 in
        let olen = p.pbits / 8 + (if p.pbits % 8 == 0 then 0 else 1) in
        let written = and_then (p.write_binary key olen) λ bytes. ok (olen, bytes, k.1) in
        if ltb obuflen (p.mpi_size key) then fail (polarssl_error 1) else written
