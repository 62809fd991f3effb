-- ===== src/Scylla/Connect.antt =====
-- Which ports `connect` hands to the driver.
use wsgateway.Prelude.{
  ℕ, ◌≤◌, ◌≡◌, refl, true, false, List, [], ◌∷◌, ◌++◌, append-nil, arith, Bytes, Lacks, All, empty,
}
use wsgateway.Std.Number.{to_string, IsDigit, long_max, starts_digit}
use wsgateway.Std.Number.RoundTrip.{strtol-to_string, to_string_digits, starts_digit-to_string}
use wsgateway.Utilis.Split.{split}
use wsgateway.Utilis.Split.RoundTrip.{split-terminated, last_token}
use wsgateway.Scylla.Manager.{ScyllaManager, read_port, loop_ports, connect_ports}

no_comma : (s : Bytes) → All IsDigit s → Lacks b',' s
no_comma [] h = tt
no_comma (c ∷ s) h = (ground arith, no_comma s h.1)

last_token_digit : (s : Bytes) → starts_digit s ≡ true → (last_token s ≡ s ∷ []) × (empty s ≡ false)
last_token_digit [] h = absurd (cc)
last_token_digit (c ∷ s) h = (refl, refl)

split_number : (n : ℕ) → split (to_string n) b',' ≡ to_string n ∷ []
split_number n =
    rw (split-terminated b',' [] (to_string n) tt (no_comma _ (to_string_digits n)))
      (last_token_digit (to_string n) (starts_digit-to_string n)).0

read_port_number : (n : ℕ) → n ≤ 65535 → read_port (to_string n) ≡ n ∷ []
read_port_number n h =
    rw (← append-nil (to_string n), strtol-to_string n [] (omega arith) refl) (ground arith)

read_port_list : (n : ℕ) (rest : Bytes) → n ≤ long_max → read_port (to_string n ++ b',' ∷ rest) ≡ []
read_port_list n rest h = rw (strtol-to_string n (b',' ∷ rest) h refl)

loop_ports_none : (text : Bytes) (ps : List Bytes) → read_port text ≡ [] → loop_ports text ps ≡ []
unfolding loop_ports
loop_ports_none text [] h = refl
loop_ports_none text (p ∷ ps) h = ground (arith, loop_ports_none text ps h)

loop_ports_number :
    (n : ℕ) → n ≤ 65535 → loop_ports (to_string n) (split (to_string n) b',') ≡ n ∷ []
unfolding loop_ports
loop_ports_number n h = rw (
  split_number n,
  (last_token_digit (to_string n) (starts_digit-to_string n)).1,
  read_port_number n h,
)

-- A port text that is one number below 65536 sets that port, once, whatever the hosts are.
pub connect_ports_number :
    (m : ScyllaManager) (hosts : Bytes) (n : ℕ)
    → n ≤ 65535
    → m.m_scylladb_port ≡ to_string n
    → connect_ports m hosts ≡ n ∷ []
unfolding connect_ports
connect_ports_number m hosts n h e =
    let port : read_port m.m_scylladb_port ≡ n ∷ [] = rw e (read_port_number n h) in
    let loop : loop_ports m.m_scylladb_port (split m.m_scylladb_port b',') ≡ n ∷ [] =
      rw e (loop_ports_number n h) in
    ground (arith, port, loop)

-- A port text that is a list, a number and a comma in front, sets no port, whatever the hosts are:
-- `connect` reads the whole text for each port of the list.
pub connect_ports_list :
    (m : ScyllaManager) (hosts : Bytes) (n : ℕ) (rest : Bytes)
    → n ≤ long_max
    → m.m_scylladb_port ≡ to_string n ++ b',' ∷ rest
    → connect_ports m hosts ≡ []
unfolding connect_ports
connect_ports_list m hosts n rest h e =
    let port : read_port m.m_scylladb_port ≡ [] = rw e (read_port_list n rest h) in
    ground (arith, port, loop_ports_none m.m_scylladb_port (split m.m_scylladb_port b',') port)
