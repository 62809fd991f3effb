-- ===== src/Scylla/Text.antt =====
-- The texts of the queries as CQL reads them: the quotes of their literals.
use wsgateway.Prelude.{
  ℕ, suc, ◌+◌, ◌%◌, ◌≡◌, refl, [], ◌∷◌, ◌++◌, append_assoc, arith, if◌then◌else◌, ◌==◌, Bytes,
  codes, Lacks,
}
use wsgateway.Scylla.Manager.{ScyllaManager, insert_query, delete_query, select_query, view_query}

abbrev pub quote : ℕ
quote = b'\''

abbrev pub quotes : Bytes → ℕ
quotes [] = 0
quotes (c ∷ s) = if c == quote then suc (quotes s) else quotes s

quotes-append : (s t : Bytes) → quotes (s ++ t) ≡ quotes s + quotes t
quotes-append [] t = omega arith
quotes-append (c ∷ s) t = ground (arith, quotes-append s t)

quotes_none : (s : Bytes) → Lacks quote s → quotes s ≡ 0
quotes_none [] h = refl
quotes_none (c ∷ s) h = ground (arith, quotes_none s h.1)

-- The names of the keyspace and the table hold no quote.
abbrev pub IsPlain : ScyllaManager → Type 0
IsPlain m = Lacks quote m.m_keyspace × Lacks quote m.m_table

-- Every quote that is opened is closed.
abbrev pub IsClosed : Bytes → Type 0
IsClosed q = quotes q % 2 ≡ 0

module _ (m : ScyllaManager) (plain : IsPlain m) where
  names_quotes : quotes m.m_keyspace + quotes m.m_table ≡ 0
  names_quotes = omega (arith, quotes_none m.m_keyspace plain.0, quotes_none m.m_table plain.1)

  insert_quotes :
      (vin host : Bytes) → Lacks quote vin → Lacks quote host → quotes (insert_query m vin host) ≡ 4
  unfolding insert_query
  insert_quotes vin host h k =
      simp (quotes-append, quotes_none vin h, quotes_none host k) (omega (arith, names_quotes))

  delete_quotes : (vin : Bytes) → Lacks quote vin → quotes (delete_query m vin) ≡ 2
  unfolding delete_query
  delete_quotes vin h = simp (quotes-append, quotes_none vin h) (omega (arith, names_quotes))

  select_quotes : (vin : Bytes) → Lacks quote vin → quotes (select_query m vin) ≡ 2
  unfolding select_query
  select_quotes vin h = simp (quotes-append, quotes_none vin h) (omega (arith, names_quotes))

  view_quotes : (host : Bytes) → Lacks quote host → quotes (view_query m host) ≡ 1
  unfolding view_query
  view_quotes host h = simp (quotes-append, quotes_none host h) (omega (arith, names_quotes))

  -- For names without a quote the texts that insert, delete and select by client close every quote
  -- that they open, and the text that selects by host does not.
  pub queries-IsClosed :
      (vin host : Bytes)
      → Lacks quote vin
      → Lacks quote host
      → IsClosed (insert_query m vin host)
        × IsClosed (delete_query m vin)
        × IsClosed (select_query m vin)
        × (¬ IsClosed (view_query m host))
  queries-IsClosed vin host h k = (
    rw (insert_quotes vin host h k),
    rw (delete_quotes vin h),
    rw (select_quotes vin h),
    rw (view_quotes host k) (omega arith),
  )

-- A client name may close its literal itself: whatever names a and h are chosen, a client that
-- calls itself a', 'h'); makes the text begin with the whole statement that stores h for a.
pub insert_query_injection :
    (m : ScyllaManager) (a h host : Bytes)
    → insert_query m (a ++ (codes "', '" ++ (h ++ codes "');"))) host
      ≡ insert_query m a h ++ (codes "', '" ++ (host ++ codes "');"))
unfolding insert_query
insert_query_injection m a h host = simp append_assoc
