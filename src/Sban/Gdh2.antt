-- ===== src/Sban/Gdh2.antt =====
-- Project/libsmoke/libs/sknx/libs/sban/src/gdh2.c: a list of points goes from node to node, each of
-- which multiplies by its secret; the last one broadcasts what the others make the key of.
pub mod Values
pub mod SameKey
pub mod Middle
mod Tests
use lib_smoke.Base.{
  ℕ, zero, suc, ◌+◌, ◌-◌, ◌*◌, ◌/◌, ◌%◌, List, [], ◌++◌, Option, Bool, not, ◌&&◌, ◌||◌, ltb, leb,
  ◌==◌, if◌then◌else◌, length, drop,
}
use lib_smoke.Sban.{
  bad_input_data, buffer_too_short, Ret, ok, fail, and_then, not_null, Polarssl, Arithmetic,
}
use lib_smoke.Sban.Util.{Curve, gen_privkey}

-- `gdh2_context`, without the curve
pub record Context (Mpi : Type 0) : Type 0 where
  pub priv : Mpi
  pub key : Mpi
  pub n : ℕ

module _ {Mpi Point Rng : Type 0} (p : Polarssl Mpi Point Rng) (q : Arithmetic Mpi Point)
    (k : Curve Mpi Point Rng) where
  unfoldable pub init : Option (Context Mpi) → ℕ → ℕ → Rng → Ret (Context Mpi × Rng)
  init ctx id n rng = not_null ctx λ c. and_then (p.use_known_dp id) λ u.
      and_then (gen_privkey k rng) λ d. ok (record { priv = d.0; key = p.zero_mpi; n = n }, d.1)

  unfoldable pub make_firstval : Option (Context Mpi) → ℕ → Rng → Ret (List ℕ × Rng)
  make_firstval ctx obuflen rng = not_null ctx λ c.
      and_then (p.mul c.priv k.generator rng)
        λ m. and_then (p.write_point m.0 obuflen) λ bytes. ok (bytes, m.1)

  -- The `for` loop of `gdh2_make_val` from `i` on, `rounds` rounds: `buf` is what is left to read, `out`
  -- what was written. A write is never longer than what is left, so `obuflen-len` does not wrap around.
  unfoldable pub multiply : ℕ → ℕ → Mpi → List ℕ → ℕ → ℕ → List ℕ → Rng → Ret (List ℕ × Rng)
  multiply zero i priv buf buflen obuflen out rng = ok (out, rng)
  multiply (suc rounds) i priv buf buflen obuflen out rng = and_then (q.read_next buf buflen) λ t.
      and_then (p.mul priv t.0 rng) λ m.
        and_then (p.write_point m.0 (obuflen - length out)) λ bytes.
          let out1 = out ++ bytes in
          let old =
            and_then (p.write_point t.0 (obuflen - length out1))
              λ bytes. multiply rounds (i + 1) priv t.1 buflen obuflen (out1 ++ bytes) m.1 in
          let rest = multiply rounds (i + 1) priv t.1 buflen obuflen out1 m.1 in
          if i == 0 then old else rest

  -- what the second node writes further
  unfoldable pub add_second : ℕ → Mpi → ℕ → List ℕ → Rng → Ret (List ℕ × Rng)
  add_second index priv obuflen out rng =
      let extra =
        and_then (p.mul priv k.generator rng) λ m.
          and_then (p.write_point m.0 (obuflen - length out)) λ bytes. ok (out ++ bytes, m.1) in
      if index == 2 then extra else ok (out, rng)

  abbrev pub term : ℕ → ℕ
  term index = if index == 2 then 1 else index

  -- the first branch: the last node takes its key from the first point
  unfoldable pub last_val :
      Context Mpi → ℕ → List ℕ → ℕ → ℕ → Rng → Ret (Context Mpi × List ℕ × Rng)
  unfolding multiply add_second
  last_val c index buf buflen obuflen rng = and_then (q.read_next buf buflen) λ t.
      and_then (p.mul c.priv t.0 rng) λ m.
        and_then (multiply (term index - 1) 1 c.priv t.1 buflen obuflen [] m.1) λ out.
          and_then (add_second index c.priv obuflen out.0 out.1)
            λ r. ok (record c { key = p.x_of m.0 }, r.0, r.1)

  -- and the second
  unfoldable pub middle_val :
      Context Mpi → ℕ → List ℕ → ℕ → ℕ → Rng → Ret (Context Mpi × List ℕ × Rng)
  unfolding multiply add_second
  middle_val c index buf buflen obuflen rng =
      and_then (multiply (term index) 0 c.priv buf buflen obuflen [] rng)
        λ out. and_then (add_second index c.priv obuflen out.0 out.1) λ r. ok (c, r.0, r.1)

  unfoldable pub make_val :
      Option (Context Mpi) → ℕ → List ℕ → ℕ → ℕ → Rng → Ret (Context Mpi × List ℕ × Rng)
  unfolding last_val middle_val
  make_val ctx index buf buflen obuflen rng = not_null ctx λ c.
      if index == c.n
      then last_val c index buf buflen obuflen rng
      else if leb 2 index && ltb index c.n
      then middle_val c index buf buflen obuflen rng
      else fail bad_input_data

  -- the length and the bytes of a key
  unfoldable pub write_key : Mpi → ℕ → Ret (ℕ × List ℕ)
  write_key key buflen =
      let olen = p.pbits / 8 + (if p.pbits % 8 == 0 then 0 else 1) in
      let written = and_then (p.write_binary key olen) λ bytes. ok (olen, bytes) in
      if ltb buflen (p.mpi_size key) then fail buffer_too_short else written

  unfoldable pub compute_key :
      Option (Context Mpi) → ℕ → List ℕ → ℕ → ℕ → Rng → Ret (Context Mpi × ℕ × List ℕ × Rng)
  unfolding write_key
  compute_key ctx index buf buflen obuflen rng = not_null ctx λ c.
      let plen = 2 * k.prime_size + 2 in
      let computed = and_then (q.read_next (drop (plen * (c.n - index - 1)) buf) buflen) λ t.
        and_then (p.mul c.priv t.0 rng) λ m.
          and_then (write_key (p.x_of m.0) obuflen)
            λ w. ok (record c { key = p.x_of m.0 }, w.0, w.1, m.1) in
      if ltb index 1 || not (ltb index c.n) then fail bad_input_data else computed

  unfoldable pub export_key : Option (Context Mpi) → ℕ → Ret (ℕ × List ℕ)
  unfolding write_key
  export_key ctx buflen = not_null ctx λ c. write_key c.key buflen
