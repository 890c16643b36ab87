-- ===== src/Sban/Bd2.antt =====
-- Project/libsmoke/libs/sknx/libs/sban/src/bd2.c: the chair sends each node its key, hidden by the
-- secret that it shares with that node.
pub mod Agreement
pub mod SameKey
pub mod Wire
use lib_smoke.Base.{ℕ, ◌+◌, ◌/◌, ◌%◌, List, Option, Bool, ltb, ◌==◌, if◌then◌else◌}
use lib_smoke.Sban.{
  Code, bad_input_data, buffer_too_short, polarssl_error, Ret, ok, fail, and_then, or_old, not_null,
  Polarssl, opp,
}

-- `bd2_context`, without the curve
pub record Context (Mpi Point : Type 0) : Type 0 where
  pub priv : Mpi
  pub pub_point : Point
  pub peer : Point
  pub x : Point
  pub key : Point

module _ {Mpi Point Rng : Type 0} (p : Polarssl Mpi Point Rng) where
  unfoldable pub init : Option (Context Mpi Point) → ℕ → Ret (Context Mpi Point)
  init ctx id = not_null ctx λ c. and_then (p.use_known_dp id) λ u. ok (record {
    priv = p.zero_mpi;
    pub_point = p.zero_point;
    peer = p.zero_point;
    x = p.zero_point;
    key = p.zero_point;
  })

  unfoldable pub make_key : Option (Context Mpi Point) → Rng → Ret (Context Mpi Point × Rng)
  make_key ctx rng =
      not_null ctx λ c. and_then (p.gen_keypair rng) λ r. ok (record c { key = r.1 }, r.2)

  -- the length and the bytes of the key
  unfoldable pub export_key : Context Mpi Point → ℕ → Ret (ℕ × List ℕ)
  export_key c buflen =
      if ltb buflen (p.mpi_size (p.x_of c.key))
      then fail buffer_too_short
      else let olen = p.pbits / 8 + (if p.pbits % 8 == 0 then 0 else 1) in
        and_then (p.write_binary (p.x_of c.key) olen) λ bytes. ok (olen, bytes)

  -- `POLARSSL_ERR_ECP_BAD_INPUT_DATA` is -0x4F80.
  unfoldable pub compute_shared_point : Context Mpi Point → Rng → Ret (Point × Rng)
  compute_shared_point c rng = and_then (p.check_pubkey c.peer) λ u.
      and_then (p.mul c.priv c.peer rng)
        λ r. if p.is_zero r.0 then fail (polarssl_error 0x4f80) else ok r

  -- The results of `ecp_opp` and `ecp_add` are not looked at.
  unfoldable pub make_val :
      Option (Context Mpi Point) → ℕ → Rng → Ret (Context Mpi Point × List ℕ × Rng)
  make_val ctx buflen rng = not_null ctx λ c. and_then (compute_shared_point c rng) λ r.
      let opp_p = or_old (opp p r.0) p.zero_point in
      let x' = or_old (p.add c.key opp_p) c.x in
      and_then (p.write_point x' buflen) λ bytes. ok (record c { x = x' }, bytes, r.1)

  unfoldable pub import_val : Option (Context Mpi Point) → List ℕ → Ret (Context Mpi Point)
  import_val ctx buf = not_null ctx λ c. and_then (p.read_point buf) λ q. ok (record c { x = q })

  unfoldable pub calc_key : Option (Context Mpi Point) → Rng → Ret (Context Mpi Point × Rng)
  calc_key ctx rng = not_null ctx λ c.
      and_then (compute_shared_point c rng)
        λ r. and_then (p.add c.x r.0) λ q. ok (record c { key = q }, r.1)

  unfoldable pub make_public :
      Option (Context Mpi Point) → ℕ → Rng → Ret (Context Mpi Point × List ℕ × Rng)
  make_public ctx buflen rng = not_null ctx λ c. and_then (p.gen_keypair rng) λ r.
      and_then (p.write_point r.1 buflen)
        λ bytes. ok (record c { priv = r.0; pub_point = r.1 }, bytes, r.2)

  unfoldable pub read_public : Option (Context Mpi Point) → List ℕ → Ret (Context Mpi Point)
  read_public ctx buf =
      not_null ctx λ c. and_then (p.read_point buf) λ q. ok (record c { peer = q })
