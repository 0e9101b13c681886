-- ===== src/Litmus/Locks.antt =====
-- The table of locking protocols, and litmus_open_lock.
use adaptive_liblitmus.Base.{List, [], ◌∷◌, Option, if◌then◌else◌}
use adaptive_liblitmus.Base.Int.{ℤ, minus_one, eqb_ℤ, is_neg}
use adaptive_liblitmus.Base.Chars.{Bytes, codes, streq}
use adaptive_liblitmus.Kernel.{Kernel, Call, OpenMode, M, ◌>>=◌, ◌>>◌, pure, call}
use adaptive_liblitmus.Syscalls.{
  fmlp_sem, srp_sem, mpcp_sem, mpcp_vs_sem, dpcp_sem, pcp_sem, dflp_sem, od_openx,
}

pub record Protocol : Type 0 where
  pub id : ℤ
  pub name : Bytes

abbrev pub protocol : List Protocol
protocol =
    record { id = fmlp_sem; name = codes "FMLP" }
    ∷ record { id = srp_sem; name = codes "SRP" }
    ∷ record { id = mpcp_sem; name = codes "MPCP" }
    ∷ record { id = mpcp_vs_sem; name = codes "MPCP_VS" }
    ∷ record { id = mpcp_vs_sem; name = codes "MPCP-VS" }
    ∷ record { id = dpcp_sem; name = codes "DPCP" }
    ∷ record { id = pcp_sem; name = codes "PCP" }
    ∷ record { id = dflp_sem; name = codes "DFLP" }
    ∷ []

-- The two loops, over what is left of the table.
unfoldable pub id_of_name : Bytes → List Protocol → ℤ
id_of_name name [] = minus_one
id_of_name name (p ∷ ps) = if streq name p.name then p.id else id_of_name name ps

unfoldable pub name_of_id : ℤ → List Protocol → Bytes
name_of_id id [] = codes "<UNKNOWN>"
name_of_id id (p ∷ ps) = if eqb_ℤ p.id id then p.name else name_of_id id ps

unfoldable pub lock_protocol_for_name : Bytes → ℤ
unfolding id_of_name
lock_protocol_for_name name = id_of_name name protocol

unfoldable pub name_for_lock_protocol : ℤ → Bytes
unfolding name_of_id
name_for_lock_protocol id = name_of_id id protocol

unfoldable pub litmus_open_lock : Kernel → ℤ → ℤ → Bytes → Option ℤ → M ℤ
unfolding od_openx call
litmus_open_lock k protocol lock_id name_space config_param = do
  fd ← call k (Call.open_file name_space OpenMode.create)
  if is_neg fd then pure minus_one else (do
    od ← od_openx k fd protocol lock_id config_param
    call k (Call.close_file fd)
    pure od)
