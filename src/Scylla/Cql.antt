-- ===== src/Scylla/Cql.antt =====
-- What the program relies on of the database: the documented effect of the language's statements on
-- a table with the columns vin, its key, and host, as a map from clients to hosts, for names without
-- a quote and a NUL. Nothing is said of a statement that fails, and nothing is taken from the
-- program's own texts: a statement is named by its table, its columns and their values.
use wsgateway.Prelude.{
  ◌≡◌, ◌≢◌, ◌⊎◌, List, [], ◌∷◌, ◌++◌, Option, none, some, if◌then◌else◌, Bytes, codes, Lacks, same,
}
use wsgateway.Scylla.Driver.{Driver, Row}
use wsgateway.Scylla.Manager.{ScyllaManager, table_name}
use wsgateway.Scylla.Text.{quote}

-- A name that may stand between two quotes of a statement, which is handed over as a C string.
abbrev pub IsName : Bytes → Type 0
IsName s = Lacks quote s × Lacks 0 s

-- The rows of a selected host.
abbrev pub host_rows : Option Bytes → List Row
host_rows none = []
host_rows (some h) = ((codes "host", h) ∷ []) ∷ []

-- A column with its value.
abbrev pub Cell : Type 0
Cell = Bytes × Bytes

-- The columns of the cells, and their values between quotes, in front of a rest.
abbrev columns : List Cell → Bytes → Bytes
columns [] rest = rest
columns ((column, value) ∷ []) rest = column ++ rest
columns ((column, value) ∷ cell ∷ cells) rest =
    column ++ (codes ", " ++ columns (cell ∷ cells) rest)

abbrev values : List Cell → Bytes → Bytes
values [] rest = rest
values ((column, value) ∷ []) rest = codes "'" ++ (value ++ (codes "'" ++ rest))
values ((column, value) ∷ cell ∷ cells) rest =
    codes "'" ++ (value ++ (codes "', " ++ values (cell ∷ cells) rest))

abbrev where_is : Cell → Bytes
where_is (column, value) = codes " WHERE " ++ (column ++ (codes " = '" ++ (value ++ codes "';")))

-- The statements of the language, by their table.
abbrev pub insert_into : Bytes → List Cell → Bytes
insert_into table cells =
    codes "INSERT INTO "
    ++ (table ++ (codes " (" ++ columns cells (codes ") VALUES (" ++ values cells (codes ");"))))

abbrev pub delete_from : Bytes → Cell → Bytes
delete_from table cell = codes "DELETE FROM " ++ (table ++ where_is cell)

abbrev pub select_from : Bytes → Bytes → Cell → Bytes
select_from column table cell =
    codes "SELECT " ++ (column ++ (codes " FROM " ++ (table ++ where_is cell)))

-- The statements that store, remove and select a client's host.
module _ (m : ScyllaManager) where
  abbrev pub set_host : Bytes → Bytes → Bytes
  set_host vin host = insert_into (table_name m) ((codes "vin", vin) ∷ (codes "host", host) ∷ [])

  abbrev pub drop_host : Bytes → Bytes
  drop_host vin = delete_from (table_name m) (codes "vin", vin)

  abbrev pub get_host : Bytes → Bytes
  get_host vin = select_from (codes "host") (table_name m) (codes "vin", vin)

pub record Cql (d : Driver) (m : ScyllaManager) : Type 0 where
  pub hosts : d.State → Bytes → Option Bytes
  pub inserted :
      (vin host : Bytes) (s : d.State)
      → IsName vin
      → IsName host
      → (d.execute (set_host m vin host) s).1 ≢ none
      → (v : Bytes)
      → hosts (d.execute (set_host m vin host) s).0 v
        ≡ (if same vin v then some host else hosts s v)
  pub deleted :
      (vin : Bytes) (s : d.State)
      → IsName vin
      → (d.execute (drop_host m vin) s).1 ≢ none
      → (v : Bytes)
      → hosts (d.execute (drop_host m vin) s).0 v ≡ (if same vin v then none else hosts s v)
  pub selected :
      (vin : Bytes) (s : d.State)
      → IsName vin
      → ((d.execute (get_host m vin) s).1 ≡ none)
        ⊎ ((d.execute (get_host m vin) s).1 ≡ some (host_rows (hosts s vin)))
  pub select_keeps :
      (vin : Bytes) (s : d.State)
      → IsName vin
      → (v : Bytes) → hosts (d.execute (get_host m vin) s).0 v ≡ hosts s v
