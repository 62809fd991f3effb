-- ===== src/Client/Library.antt =====
-- What the client uses of Boost.Beast, and of the network through it, with the documented laws of
-- the container of fields.
use wsgateway.Prelude.{
  ℕ, ◌≡◌, Bool, true, false, Option, none, some, if◌then◌else◌, Bytes, codes, lower, same,
}
use wsgateway.Http.Parser.{Headers}
use wsgateway.Http.Response.{Response}

-- `same_name` compares names without regard to the case of letters. `get` reads the container of
-- fields, `set` replaces every field of a name, `prepare_payload` sets the fields that tell the
-- body's length. `order` is the order in which an unordered map is walked. The container's limits
-- on the length of a name and of a value are left out.
pub record Beast : Type 1 where
  pub Verb : Type 0
  pub string_to_verb : Bytes → Option Verb
  pub default_version : ℕ
  pub Fields : Type 0
  pub no_fields : Fields
  pub get : Bytes → Fields → Option Bytes
  pub set : Bytes → Bytes → Fields → Fields
  pub prepare_payload : Bytes → Fields → Fields
  pub same_name : Bytes → Bytes → Bool
  pub order : Headers → Headers

pub record BeastLaws (b : Beast) : Type 0 where
  pub get_none : (j : Bytes) → b.get j b.no_fields ≡ none
  pub get-set :
      (k j v : Bytes) (f : b.Fields)
      → b.get j (b.set k v f) ≡ (if b.same_name k j then some v else b.get j f)
  pub same_self : (k : Bytes) → b.same_name k k ≡ true
  pub same_lower : (k j : Bytes) → b.same_name k j ≡ true → same (lower k) (lower j) ≡ true
  pub get-prepare_payload :
      (body j : Bytes) (f : b.Fields)
      → b.same_name (codes "Content-Length") j ≡ false
      → b.same_name (codes "Transfer-Encoding") j ≡ false
      → b.get j (b.prepare_payload body f) ≡ b.get j f

-- What the network does in one exchange: whether the name resolves, the connection is made and the
-- request is written, and the response that is read.
pub record Network (Q : Type 0) : Type 0 where
  pub resolve : Bytes → Bytes → Bool
  pub connect : Bytes → Bytes → Bool
  pub write : Q → Bool
  pub read : Q → Option Response
