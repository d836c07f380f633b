-- ===== src/Syscall/Stand.antt =====
-- A stand-in for `postcard` that keeps its promises: a number for the variant, and one for each field.
use pellegrino.Base.{
  ℕ, ◌≤◌, ◌<◌, ◌≡◌, refl, sym, ◌∙◌, ap, arith, List, [], ◌∷◌, Option, none, some, length, leb,
  leb→le, ◌==◌, if◌then◌else◌, Bool-cases, inl, inr, none≢some, some-inj,
}
use pellegrino.Syscall.{
  SysCallRequest, serial_open_port, serial_receive, serial_send, sleep_micros, SysCallSuccess,
  port_opened, data_received, data_sent, slept_micros, Postcard, PostcardLaws,
}

abbrev words_of_request : SysCallRequest → List ℕ
words_of_request (serial_open_port port) = 0 ∷ port ∷ []
words_of_request (serial_receive port d) = 1 ∷ port ∷ d.ptr ∷ d.len ∷ []
words_of_request (serial_send port d) = 2 ∷ port ∷ d.ptr ∷ d.len ∷ []
words_of_request (sleep_micros us) = 3 ∷ us ∷ []

abbrev words_of_success : SysCallSuccess → List ℕ
words_of_success port_opened = 0 ∷ []
words_of_success (data_received d) = 1 ∷ d.ptr ∷ d.len ∷ []
words_of_success (data_sent none) = 2 ∷ []
words_of_success (data_sent (some d)) = 2 ∷ d.ptr ∷ d.len ∷ []
words_of_success (slept_micros us) = 3 ∷ us ∷ []

unfoldable pub request_of_words : List ℕ → Option SysCallRequest
request_of_words [] = none
request_of_words (v ∷ []) = none
request_of_words (v ∷ a ∷ []) = if v == 0 then some (serial_open_port a) else some (sleep_micros a)
request_of_words (v ∷ a ∷ b ∷ []) = none
request_of_words (v ∷ a ∷ b ∷ c ∷ rest) =
    if v == 1
    then some (serial_receive a (record { ptr = b; len = c }))
    else some (serial_send a (record { ptr = b; len = c }))

unfoldable pub success_of_words : List ℕ → Option SysCallSuccess
success_of_words [] = none
success_of_words (v ∷ []) = if v == 0 then some port_opened else some (data_sent none)
success_of_words (v ∷ a ∷ []) = some (slept_micros a)
success_of_words (v ∷ a ∷ b ∷ rest) =
    if v == 1
    then some (data_received (record { ptr = a; len = b }))
    else some (data_sent (some (record { ptr = a; len = b })))

abbrev within : List ℕ → ℕ → Option (List ℕ)
within ws n = if leb (length ws) n then some ws else none

abbrev pub word_card : Postcard
word_card = record {
  request_to_slice = λ r n. within (words_of_request r) n;
  request_from_bytes = request_of_words;
  success_to_slice = λ r n. within (words_of_success r) n;
  success_from_bytes = success_of_words;
}

within-some :
    (ws : List ℕ) (n : ℕ) (bs : List ℕ) → within ws n ≡ some bs → (ws ≡ bs) × (length ws ≤ n)
within-some ws n bs e = elim (Bool-cases (leb (length ws) n)) [
  | inl fits ↦ (some-inj (rw fits at e), leb→le _ _ fits)
  | inr long ↦ absurd (none≢some (rw long at e))
]

request-pos : (r : SysCallRequest) → 0 < length (words_of_request r)
request-pos (serial_open_port port) = omega arith
request-pos (serial_receive port d) = omega arith
request-pos (serial_send port d) = omega arith
request-pos (sleep_micros us) = omega arith

success-pos : (r : SysCallSuccess) → 0 < length (words_of_success r)
success-pos port_opened = omega arith
success-pos (data_received d) = omega arith
success-pos (data_sent none) = omega arith
success-pos (data_sent (some d)) = omega arith
success-pos (slept_micros us) = omega arith

request-round : (r : SysCallRequest) → request_of_words (words_of_request r) ≡ some r
unfolding request_of_words
request-round (serial_open_port port) = refl
request-round (serial_receive port d) = refl
request-round (serial_send port d) = refl
request-round (sleep_micros us) = refl

success-round : (r : SysCallSuccess) → success_of_words (words_of_success r) ≡ some r
unfolding success_of_words
success-round port_opened = refl
success-round (data_received d) = refl
success-round (data_sent none) = refl
success-round (data_sent (some d)) = refl
success-round (slept_micros us) = refl

pub request-within :
    (r : SysCallRequest) (n : ℕ) (bs : List ℕ)
    → within (words_of_request r) n ≡ some bs
    → (0 < length bs) × (length bs ≤ n)
request-within r n bs e =
    let (same, fits) = within-some (words_of_request r) n bs e in
    (omega (arith, ap length same, request-pos r), omega (arith, ap length same))

pub success-within :
    (r : SysCallSuccess) (n : ℕ) (bs : List ℕ)
    → within (words_of_success r) n ≡ some bs
    → (0 < length bs) × (length bs ≤ n)
success-within r n bs e =
    let (same, fits) = within-some (words_of_success r) n bs e in
    (omega (arith, ap length same, success-pos r), omega (arith, ap length same))

pub request-rounds :
    (r : SysCallRequest) (n : ℕ) (bs : List ℕ)
    → within (words_of_request r) n ≡ some bs
    → request_of_words bs ≡ some r
request-rounds r n bs e =
    ap request_of_words (sym (within-some (words_of_request r) n bs e).0) ∙ request-round r

pub success-rounds :
    (r : SysCallSuccess) (n : ℕ) (bs : List ℕ)
    → within (words_of_success r) n ≡ some bs
    → success_of_words bs ≡ some r
success-rounds r n bs e =
    ap success_of_words (sym (within-some (words_of_success r) n bs e).0) ∙ success-round r

abbrev pub word_card_laws : PostcardLaws word_card
word_card_laws = record {
  request_within = request-within;
  request_round = request-rounds;
  success_within = success-within;
  success_round = success-rounds;
}
