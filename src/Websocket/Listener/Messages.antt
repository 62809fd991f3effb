-- ===== src/Websocket/Listener/Messages.antt =====
-- Messages that come in several frames.
use wsgateway.Prelude.{
  ℕ, ◌≡◌, ◌≢◌, refl, sym, ap, ◌∙◌, List, [], ◌∷◌, ◌++◌, append_assoc, append-nil, Option, none,
  some, Bytes, length, All, take_all, arith, map,
}
use wsgateway.Std.Number.{pos, to_string}
use wsgateway.Websocket.Listener.{Listener, Request, read_message}

-- One call of `readMessage` for each frame, then one with the size 0 for the message's end, at the
-- time `now`.
abbrev pub read_frames : Listener → List Bytes → ℕ → Listener
read_frames l [] now = l
read_frames l (f ∷ fs) now = read_frames (read_message l (pos (length f)) f now).0 fs now

abbrev pub read_whole : Listener → List Bytes × ℕ → Listener × Option Request
read_whole l (fs, now) = read_message (read_frames l fs now) (pos 0) [] now

-- The messages of a connection, each with the time of its end, and what they dispatch.
abbrev pub read_all : Listener → List (List Bytes × ℕ) → Listener × List (Option Request)
read_all l [] = (l, [])
read_all l (m ∷ ms) = let r = read_whole l m in let more = read_all r.0 ms in (more.0, r.1 ∷ more.1)

abbrev pub concat : List Bytes → Bytes
concat [] = []
concat (f ∷ fs) = f ++ concat fs

-- What a whole message dispatches.
abbrev pub whole : List Bytes × ℕ → Option Request
whole (fs, now) = some (record { message = concat fs; arrived = to_string now })

abbrev with_buffer : Listener → Bytes → Listener
with_buffer l b = record l { message_buffer = b }

pub read_frame :
    (l : Listener) (f : Bytes) (now : ℕ)
    → f ≢ []
    → read_message l (pos (length f)) f now
      ≡ (record l { message_buffer = l.message_buffer ++ f }, none)
unfolding read_message
read_frame l [] now h = absurd (h refl)
read_frame l (c ∷ f) now h = rw (take_all (length f) f (omega arith)) (ground arith)

read_frames_buffer :
    (l : Listener) (fs : List Bytes) (now : ℕ)
    → All (λ f. f ≢ []) fs
    → read_frames l fs now ≡ record l { message_buffer = l.message_buffer ++ concat fs }
read_frames_buffer l [] now h = ap (with_buffer l) (sym (append-nil l.message_buffer))
read_frames_buffer l (f ∷ fs) now h = rw (ap (λ p. p.0) (read_frame l f now h.0)) (
    read_frames_buffer (with_buffer l (l.message_buffer ++ f)) fs now h.1
    ∙ ap (with_buffer l) (append_assoc l.message_buffer f (concat fs)))

read_whole_lem :
    (l : Listener) (m : List Bytes × ℕ)
    → l.message_buffer ≡ []
    → All (λ f. f ≢ []) m.0
    → read_whole l m ≡ (l, whole m)
unfolding read_message
read_whole_lem l (fs, now) e h = rw (read_frames_buffer l fs now h) (
    ap
      (λ b. (with_buffer l [], some (record { message = b ++ concat fs; arrived = to_string now })))
      e
    ∙ ap (λ b. (with_buffer l b, whole (fs, now))) (sym e))

-- However a connection's messages are cut into frames, each message is dispatched once, whole, in
-- its order and with the time of its end; no byte of one message gets into another, and the
-- listener is as before.
pub read_all_lem :
    (l : Listener) (ms : List (List Bytes × ℕ))
    → l.message_buffer ≡ []
    → All (λ m. All (λ f. f ≢ []) m.0) ms
    → read_all l ms ≡ (l, map whole ms)
read_all_lem l [] e h = refl
read_all_lem l (m ∷ ms) e h =
    rw (read_whole_lem l m e h.0) (ap (λ r. (r.0, whole m ∷ r.1)) (read_all_lem l ms e h.1))
