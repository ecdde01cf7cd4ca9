-- ===== src/Examples/Connections.antt =====
-- The table of connection types, and listening.
use atophttpd.Prelude.{
  ℕ, ◌+◌, ◌≡◌, ◌⊎◌, refl, List, [], ◌∷◌, Option, none, some, ℤ, pos, negsuc, Bytes, codes, arith,
  Returns, if◌then◌else◌, get_elem?,
}
use atophttpd.Connection.Registry.{
  find_conntype, str_case_eq, to_lower, conntype_register, get_conntype_by_name,
  get_conntype_index_by_name, conntype_register_refines, conntype-index,
}
use atophttpd.Connection.Listen.{Attempt, Balanced, listen_to_port, listen_to_port-Balanced}

abbrev tcp_only : List Bytes
tcp_only = codes "tcp" ∷ []

abbrev own_name : Bytes → Bytes
own_name name = name

no_tls : find_conntype own_name (codes "tls") tcp_only ≡ none
unfolding find_conntype str_case_eq to_lower atophttpd.Prelude.str_eq
no_tls = refl

conntype_register_refines_example :
    get_conntype_by_name own_name
      (codes "TLS")
      (conntype_register own_name 0 (codes "tls") tcp_only).1
    ≡ (if str_case_eq (codes "TLS") (codes "tls")
        then some (codes "tls")
        else get_conntype_by_name own_name (codes "TLS") tcp_only)
conntype_register_refines_example =
    conntype_register_refines own_name 0 (codes "tls") tcp_only no_tls (omega arith) (codes "TLS")

conntype-index_example :
    ((get_conntype_index_by_name own_name (codes "TCP") tcp_only ≡ negsuc 0)
      × (get_conntype_by_name own_name (codes "TCP") tcp_only ≡ none))
    ⊎ ((i : ℕ) × (ct : Bytes) × (get_conntype_index_by_name own_name (codes "TCP") tcp_only ≡ pos i)
        × (get_elem? tcp_only i ≡ some ct)
        × (get_conntype_by_name own_name (codes "TCP") tcp_only ≡ some ct))
conntype-index_example = conntype-index own_name (codes "TCP") tcp_only

-- The first address cannot be bound, the second can.
abbrev attempts : List Attempt
attempts =
    record { socket = pos 3; reuseaddr = pos 0; reuseport = pos 0; bind = negsuc 0; listen = pos 0 }
    ∷ record { socket = pos 4; reuseaddr = pos 0; reuseport = pos 0; bind = pos 0; listen = pos 0 }
    ∷ []

listen_to_port-Balanced_example : Returns (listen_to_port (some attempts)) Balanced
listen_to_port-Balanced_example = listen_to_port-Balanced attempts
