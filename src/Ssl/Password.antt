-- ===== src/Ssl/Password.antt =====
-- The password callback and the context.
use wsgateway.Prelude.{
  ℕ, zero, suc, ◌-◌, ◌≤◌, ◌<◌, ◌≡◌, ◌≢◌, refl, ◌↔◌, true, none, some, Bytes, [], ◌∷◌, ◌++◌, length,
  replicate, length-replicate, replicate_eq, Lacks, arith,
}
use wsgateway.Config.{Config}
use wsgateway.Ssl.{strncpy, password_cb, Openssl, Context, get_ssl_context, verify_none}

abbrev nul : ℕ
nul = 0

length-strncpy : (n : ℕ) (s : Bytes) → length (strncpy n s) ≡ n
length-strncpy zero s = refl
length-strncpy (suc n) [] = length-replicate (suc n) nul
length-strncpy (suc n) (c ∷ s) = ground (arith, length-strncpy n s, length-replicate n nul)

strncpy_fits :
    (n : ℕ) (s : Bytes) → Lacks 0 s → length s ≤ n → strncpy n s ≡ s ++ replicate (n - length s) 0
strncpy_fits zero [] h k = replicate_eq nul 0 (0 - 0) (omega arith)
strncpy_fits zero (c ∷ s) h k = absurd (omega arith)
strncpy_fits (suc n) [] h k = replicate_eq nul (suc n) (suc n - 0) (omega arith)
strncpy_fits (suc n) (c ∷ s) h k =
    ground (arith, strncpy_fits n s h.1, replicate_eq nul (n - length s) (suc n - suc (length s)))

-- The callback never writes past its buffer and never returns more than the buffer's size. A
-- password that fits, with no NUL in it, is copied whole and its length is returned; a longer one
-- is refused with 0 and nothing is written.
pub password_cb_lem :
    (buffer pass : Bytes)
    → (length (password_cb buffer pass).0 ≡ length buffer)
      × ((password_cb buffer pass).1 ≤ length buffer)
      × (Lacks 0 pass
          → length pass ≤ length buffer
          → password_cb buffer pass
            ≡ (pass ++ replicate (length buffer - length pass) 0, length pass))
      × (length buffer < length pass → password_cb buffer pass ≡ (buffer, 0))
unfolding password_cb
password_cb_lem buffer pass = (
  ground (arith, length-strncpy (length buffer) pass),
  ground arith,
  (λ h k. ground (arith, strncpy_fits (length buffer) pass h k)),
  (λ k. ground arith),
)

-- A context is made exactly when every call succeeds, and then the client's certificate is not
-- asked for.
pub get_ssl_context_lem :
    (o : Openssl) (c : Config)
    → ((get_ssl_context o c ≢ none) ↔ (
        (o.new_context ≡ true)
        × (o.use_certificate_file c.server_cert_filename ≡ true)
        × (o.use_private_key_file c.private_key_filename c.server_phrase ≡ true)
        × (o.load_verify_locations c.ca_key_file_name ≡ true)
        × (o.check_private_key c.server_cert_filename c.private_key_filename ≡ true)))
      × ((x : Context) → get_ssl_context o c ≡ some x → x.verify ≡ verify_none)
unfolding get_ssl_context
get_ssl_context_lem o c = (((λ h. ground arith), (λ h k. ground arith)), (λ x e. ground arith))
