-- ===== src/Ssl/State.antt =====
-- `printStateCB` of src/utilis/sslContext.h: the log line of each step of a handshake.
use wsgateway.Prelude.{
  ℕ, zero, suc, ◌+◌, ◌*◌, ◌/◌, ◌%◌, ◌<◌, ◌≡◌, ◌≢◌, refl, sym, ap, ◌∙◌, [], ◌++◌, append_assoc,
  append-nil, Bool-cases, inl, inr, Bytes, codes, if◌then◌else◌, ◌==◌, arith,
}

-- `a & b` of two numbers of w bits.
abbrev pub bits_and : ℕ → ℕ → ℕ → ℕ
bits_and zero a b = 0
bits_and (suc w) a b = bits_and w (a / 2) (b / 2) * 2 + (a % 2) * (b % 2)

-- The kinds of OpenSSL's callback.
pub data Flag : Type 0 where
  cb_alert cb_exit cb_loop cb_read cb_write : Flag
  cb_accept_exit cb_accept_loop cb_connect_exit cb_connect_loop : Flag
  cb_handshake_done cb_handshake_start cb_read_alert cb_write_alert : Flag

-- What OpenSSL documents of their numbers: those of a server's steps have the bit of the server
-- side, besides the bit of the step.
pub record FlagLaws (number : Flag → ℕ) : Type 0 where
  pub alert_is : number cb_alert ≡ 0x4000
  pub exit_is : number cb_exit ≡ 2
  pub loop_is : number cb_loop ≡ 1
  pub read_is : number cb_read ≡ 4
  pub write_is : number cb_write ≡ 8
  pub accept_exit_is : number cb_accept_exit ≡ 0x2002
  pub accept_loop_is : number cb_accept_loop ≡ 0x2001
  pub connect_exit_is : number cb_connect_exit ≡ 0x1002
  pub connect_loop_is : number cb_connect_loop ≡ 0x1001
  pub handshake_done_is : number cb_handshake_done ≡ 0x20
  pub handshake_start_is : number cb_handshake_start ≡ 0x10
  pub read_alert_is : number cb_read_alert ≡ 0x4004
  pub write_alert_is : number cb_write_alert ≡ 0x4008

abbrev pub flag_text : Flag → Bytes
flag_text cb_alert = codes "SSL_CB_ALERT"
flag_text cb_exit = codes " SSL_CB_EXIT"
flag_text cb_loop = codes " SSL_CB_LOOP"
flag_text cb_read = codes " SSL_CB_READ"
flag_text cb_write = codes " SSL_CB_WRITE"
flag_text cb_accept_exit = codes " SSL_CB_ACCEPT_EXIT"
flag_text cb_accept_loop = codes " SSL_CB_ACCEPT_LOOP"
flag_text cb_connect_exit = codes " SSL_CB_CONNECT_EXIT"
flag_text cb_connect_loop = codes " SSL_CB_CONNECT_LOOP"
flag_text cb_handshake_done = codes " SSL_CB_HANDSHAKE_DONE"
flag_text cb_handshake_start = codes " SSL_CB_HANDSHAKE_START"
flag_text cb_read_alert = codes " SSL_CB_READ_ALERT"
flag_text cb_write_alert = codes " SSL_CB_WRITE_ALERT"

module _ (number : Flag → ℕ) (type : ℕ) where
  -- `if (type & flag) { strType += … }`
  unfoldable pub add_text : Flag → Bytes → Bytes
  add_text f text = if bits_and 32 type (number f) == 0 then text else text ++ flag_text f

  -- `strType` behind the tests, in their order.
  abbrev pub before_accept : Bytes
  before_accept =
      add_text cb_write
        (add_text cb_read (add_text cb_loop (add_text cb_exit (add_text cb_alert []))))

  abbrev pub behind_accept : Bytes → Bytes
  behind_accept text = add_text cb_write_alert (
      add_text cb_read_alert (
        add_text cb_handshake_start
          (add_text cb_handshake_done (add_text cb_connect_loop (add_text cb_connect_exit text)))))

  abbrev pub state_type : Bytes
  state_type = behind_accept (add_text cb_accept_loop (add_text cb_accept_exit before_accept))

-- The k-th bit.
abbrev pub bit : ℕ → ℕ → ℕ
bit zero a = a % 2
bit (suc k) a = bit k (a / 2)

-- Two numbers with a bit in common.
bits_and-ne_zero : (w k a b : ℕ) → k < w → bit k a ≡ 1 → bit k b ≡ 1 → bits_and w a b ≢ 0
bits_and-ne_zero zero k a b below ha hb = absurd (omega arith)
bits_and-ne_zero (suc w) zero a b below ha hb = rw (ha, hb) (omega arith)
bits_and-ne_zero (suc w) (suc k) a b below ha hb =
    let more = bits_and-ne_zero w k (a / 2) (b / 2) (omega (arith, below)) ha hb in
    omega (arith, more)

module _ (number : Flag → ℕ) (type : ℕ) where
  add_text_hit :
      (f : Flag) (k : ℕ) (text : Bytes)
      → k < 32
      → bit k type ≡ 1
      → bit k (number f) ≡ 1
      → add_text number type f text ≡ text ++ flag_text f
  unfolding add_text
  add_text_hit f k text below hit hit' =
      let shared = bits_and-ne_zero 32 k type (number f) below hit hit' in ground (arith, shared)

  add_text_keeps :
      (f : Flag) (text : Bytes) → (more : Bytes) × (add_text number type f text ≡ text ++ more)
  unfolding add_text
  add_text_keeps f text = elim (Bool-cases (bits_and 32 type (number f) == 0)) [
    | inl off ↦ ([], rw (off, append-nil text) refl)
    | inr on ↦ (flag_text f, rw on refl)
  ]

  -- One more test behind a text that begins with s.
  then_keeps :
      (f : Flag) (s text : Bytes)
      → (more : Bytes) × (text ≡ s ++ more)
      → (more : Bytes) × (add_text number type f text ≡ s ++ more)
  then_keeps f s text (more, e) =
      let (added, h) = add_text_keeps f text in
      (more ++ added, h ∙ ap (λ x. x ++ added) e ∙ append_assoc s more added)

  behind_accept-keeps : (s : Bytes) → (more : Bytes) × (behind_accept number type s ≡ s ++ more)
  behind_accept-keeps s = then_keeps cb_write_alert s _ (
      then_keeps cb_read_alert s _ (
        then_keeps cb_handshake_start s _ (
          then_keeps cb_handshake_done s _ (
            then_keeps cb_connect_loop s _
              (then_keeps cb_connect_exit s _ ([], sym (append-nil s)))))))

  -- With OpenSSL's numbers, the line of every step on the server's side, which bit 13 tells, says
  -- that it is an exit and a loop of the server, whichever of the two it is: a test with `&` is met
  -- by the bit of the side alone.
  pub state_type-accept :
      FlagLaws number
      → bit 13 type ≡ 1
      → (before : Bytes) × (after : Bytes) × (state_type number type
          ≡ before ++ codes " SSL_CB_ACCEPT_EXIT SSL_CB_ACCEPT_LOOP" ++ after)
  state_type-accept laws side =
      let s = before_accept number type in
      let exit =
        add_text_hit cb_accept_exit 13 s (omega arith) side (rw laws.accept_exit_is refl) in
      let loop =
        add_text_hit cb_accept_loop 13 (s ++ flag_text cb_accept_exit) (omega arith) side
          (rw laws.accept_loop_is refl) in
      let both : add_text number type cb_accept_loop (add_text number type cb_accept_exit s)
          ≡ s ++ codes " SSL_CB_ACCEPT_EXIT SSL_CB_ACCEPT_LOOP" =
        ap (add_text number type cb_accept_loop) exit
        ∙ loop
        ∙ append_assoc s (flag_text cb_accept_exit) (flag_text cb_accept_loop) in
      let (after, h) = behind_accept-keeps (s ++ codes " SSL_CB_ACCEPT_EXIT SSL_CB_ACCEPT_LOOP") in
      (s, after, ap (behind_accept number type) both ∙ h)
