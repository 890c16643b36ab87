-- ===== src/Sban/Mka.antt =====
-- Project/libsmoke/libs/sknx/libs/sban/src/mka.c: in each round every party broadcasts a point and
-- takes in the points of all the others. A pointer that moves over a buffer is the rest of the buffer.
pub mod Rounds
pub mod SameKey
use lib_smoke.Base.{ℕ, zero, suc, ◌+◌, ◌-◌, ◌/◌, ◌%◌, List, Option, Bool, ltb, ◌==◌, if◌then◌else◌}
use lib_smoke.Sban.{
  bad_input_data, buffer_too_short, max_round_number_exceeded, round_not_completed, Ret, ok, fail,
  and_then, or_old, not_null, Polarssl, Arithmetic, opp,
}

-- `mka_context`, without the curve
pub record Context (Mpi Point : Type 0) : Type 0 where
  pub a : Mpi
  pub k : Point
  pub key : Mpi
  pub n : ℕ
  pub r : ℕ

module _ {Mpi Point Rng : Type 0} (p : Polarssl Mpi Point Rng) (q : Arithmetic Mpi Point) where
  -- `n` and `r` are as the memory has them
  unfoldable pub init : Option (Context Mpi Point) → ℕ → Ret (Context Mpi Point)
  init ctx id = not_null ctx λ c.
      and_then (p.use_known_dp id)
        λ u. ok (record c { a = p.zero_mpi; k = p.zero_point; key = p.zero_mpi })

  unfoldable pub set_part : Option (Context Mpi Point) → ℕ → Rng → Ret (Context Mpi Point × Rng)
  set_part ctx n rng = not_null ctx λ c.
      if ltb n 2
      then fail bad_input_data
      else and_then (p.gen_keypair rng) λ g. ok (record c { r = 0; n = n; a = g.0; k = g.1 }, g.2)

  -- `ctx->r > (ctx->n) - 2`
  abbrev pub rounds_over : Context Mpi Point → Bool
  rounds_over c = ltb c.n (c.r + 2)

  -- the point of the next broadcast
  unfoldable pub broad_point : Context Mpi Point → Rng → Ret (Point × Rng)
  broad_point c rng =
      if c.r == 0
      then ok (c.k, rng)
      else and_then (p.mul c.a c.k rng) λ m. and_then (p.copy m.0) λ k. ok (k, m.1)

  unfoldable pub make_broadval :
      Option (Context Mpi Point) → ℕ → Rng → Ret (Context Mpi Point × List ℕ × Rng)
  unfolding broad_point
  make_broadval ctx buflen rng = not_null ctx λ c.
      if rounds_over c
      then fail max_round_number_exceeded
      else and_then (broad_point c rng)
          λ m. and_then (p.write_point m.0 buflen) λ bytes. ok (record c { k = m.0 }, bytes, m.1)

  -- the `for` loop of `mka_acc_broadval`, `n` rounds
  unfoldable pub sum_points : ℕ → ℕ → Point → List ℕ → Ret Point
  sum_points zero buflen sum buf = ok sum
  sum_points (suc n) buflen sum buf =
      and_then (q.read_next buf buflen)
        λ t. and_then (p.add sum t.0) λ s. and_then (p.copy s) λ sum'. sum_points n buflen sum' t.1

  -- the sum without what the rounds before have added
  unfoldable pub remove_own : Context Mpi Point → Point → Rng → Ret (Point × Rng)
  remove_own c sum rng =
      let kept = and_then (p.copy sum) λ s. ok (s, rng) in
      let removed = and_then (opp p c.k) λ t.
        and_then (q.lset c.r)
          λ r. and_then (p.mul r t rng) λ m. and_then (p.add sum m.0) λ s. ok (s, m.1) in
      if ltb 0 c.r then removed else kept

  -- The result of `ecp_set_zero` is not looked at.
  unfoldable pub acc_broadval :
      Option (Context Mpi Point) → List ℕ → ℕ → Rng → Ret (Context Mpi Point × Rng)
  unfolding sum_points remove_own
  acc_broadval ctx buf buflen rng = not_null ctx λ c.
      if rounds_over c
      then fail max_round_number_exceeded
      else and_then (sum_points (c.n - 1) buflen (or_old q.set_zero p.zero_point) buf) λ sum.
        and_then (remove_own c sum rng) λ t. and_then (q.lset (c.r + 1)) λ r.
          and_then (q.inv_mod r) λ e.
            and_then (p.mul e t.0 t.1)
              λ m. ok (record c { k = m.0; r = if ltb (c.r + 2) c.n then c.r + 1 else c.r }, m.1)

  -- the context, the length and the bytes of the key
  unfoldable pub compute_key :
      Option (Context Mpi Point) → ℕ → Rng → Ret (Context Mpi Point × ℕ × List ℕ × Rng)
  compute_key ctx buflen rng = not_null ctx λ c.
      if rounds_over c
      then fail max_round_number_exceeded
      else if ltb (c.r + 2) c.n
      then fail round_not_completed
      else and_then (p.mul c.a c.k rng) λ m.
        let key = p.x_of m.0 in
        if ltb buflen (p.mpi_size key)
        then fail buffer_too_short
        else let olen = p.pbits / 8 + (if p.pbits % 8 == 0 then 0 else 1) in
          and_then (p.write_binary key olen) λ bytes. ok (record c { key = key }, olen, bytes, m.1)
