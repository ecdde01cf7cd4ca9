-- ===== src/Connection.antt =====
-- connection.h: what the server uses of a connection, behind its laws. An accepted connection is
-- open until it is closed; the socket and the TLS connections are two implementations.
pub mod Registry
pub mod Listen
pub mod Bind
pub mod Socket
pub mod Tls
use atophttpd.Prelude.{ℕ, suc, ◌≡◌, Bool, true, false, List, [], ◌∷◌, ◌++◌, Bytes}

pub record Transport : Type 1 where
  pub Conn : Type 0
  -- `fd` is not -1.
  pub is_open : Conn → Bool
  -- How often the descriptor was closed, and what was handed to the system to be written.
  pub closes : Conn → ℕ
  pub sent : Conn → List Bytes
  pub close : Conn → Conn
  pub write : Conn → Bytes → Conn
  pub writev : Conn → List Bytes → Conn
  pub close_open :
      (c : Conn)
      → is_open c ≡ true
      → (is_open (close c) ≡ false)
        × (closes (close c) ≡ suc (closes c))
        × (sent (close c) ≡ sent c)
  pub close_closed : (c : Conn) → is_open c ≡ false → close c ≡ c
  pub write_open :
      (c : Conn) (b : Bytes)
      → is_open c ≡ true
      → (is_open (write c b) ≡ true)
        × (closes (write c b) ≡ closes c)
        × (sent (write c b) ≡ sent c ++ b ∷ [])
  pub writev_open :
      (c : Conn) (bs : List Bytes)
      → is_open c ≡ true
      → (is_open (writev c bs) ≡ true)
        × (closes (writev c bs) ≡ closes c)
        × (sent (writev c bs) ≡ sent c ++ bs)
  pub write_closed : (c : Conn) (b : Bytes) → is_open c ≡ false → write c b ≡ c
  pub writev_closed : (c : Conn) (bs : List Bytes) → is_open c ≡ false → writev c bs ≡ c
