-- ===== src/Websocket/Certificate.antt =====
-- The part of `onAfterCreate_NonBlocking` in src/websocket/WebSocketListener.cpp that reads the
-- names in a client's certificate.
use wsgateway.Prelude.{
  ◌≡◌, ◌↔◌, ◌⊎◌, inl, inr, refl, arith, Bool, true, false, [], ◌∷◌, Option, none, some, Bytes, take,
  if◌then◌else◌, ◌==◌,
}

-- What the calls of OpenSSL find in a certificate: a name that is not there is `none`.
pub record Certificate : Type 0 where
  pub common_name : Option Bytes
  pub organization : Option Bytes

-- A connection without TLS or without its SSL object, or one with the client's certificate, if the
-- client has sent one.
pub data Peer : Type 0 where
  plain : Peer
  secure : Option Certificate → Peer

-- A text up to its first NUL.
abbrev pub c_str : Bytes → Bytes
c_str [] = []
c_str (c ∷ s) = if c == 0 then [] else c ∷ c_str s

-- `X509_NAME_get_text_by_NID` into a buffer of 256 bytes, the last of them for the NUL. Where the
-- name is not there the buffer is left as it is, unset.
abbrev pub read_name : Option Bytes → Option Bytes
read_name none = none
read_name (some s) = some (c_str (take 255 s))

-- `common_name = cn`, and the log line that reads both buffers; `none` where it reads an unset one.
abbrev pub read_names : Option Bytes → Option Bytes → Option Bytes
read_names none organization = none
read_names (some cn) none = none
read_names (some cn) (some on) = some cn

-- `common_name` behind the block.
unfoldable pub peer_name : Bool → Peer → Option Bytes
peer_name false peer = some []
peer_name true plain = some []
peer_name true (secure none) = some []
peer_name true (secure (some cert)) =
    read_names (read_name cert.common_name) (read_name cert.organization)

read_names_lem :
    (cn on : Option Bytes)
    → (read_names (read_name cn) (read_name on) ≡ none) ↔ ((cn ≡ none) ⊎ (on ≡ none))
read_names_lem none on = ((λ e. inl refl), (λ e. refl))
read_names_lem (some c) none = ((λ e. inr refl), (λ e. refl))
read_names_lem (some c) (some o) = ((λ e. absurd (cc)), (λ e. absurd (ground arith)))

-- The block reads an unset buffer exactly with mutual TLS on and a certificate that lacks a common
-- name or an organization; without mutual TLS or a certificate the name is empty.
pub peer_name_lem :
    (cert : Certificate) (peer : Peer)
    → ((peer_name true (secure (some cert)) ≡ none)
        ↔ ((cert.common_name ≡ none) ⊎ (cert.organization ≡ none)))
      × (peer_name false peer ≡ some [])
      × (peer_name true (secure none) ≡ some [])
      × (peer_name true plain ≡ some [])
unfolding peer_name
peer_name_lem cert peer = (read_names_lem cert.common_name cert.organization, refl, refl, refl)
