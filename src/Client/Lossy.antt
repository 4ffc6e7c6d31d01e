-- ===== src/Client/Lossy.antt =====
-- `String::from_utf8_lossy`, as `run_sub` of src/bin/blitzclient.rs calls it: each longest part of the bytes
-- that begins a character and does not complete it, or a byte that begins none, gives way to one U+FFFD.
use blitz_broker.Common.{
  false, Option, ◌≡◌, refl, Bool, true, none, some, List, [], ◌∷◌, ◌++◌, append_assoc, Option-cases,
  inl, inr, ℕ, nat_eq, list_eq,
}
use blitz_broker.Protocol.Utf8.{
  Utf8State, boundary, one_more, two_more, three_more, after_e0, after_ed, after_f0, after_f4,
  utf8_step, utf8_run, is_utf8,
}

-- U+FFFD, as UTF-8.
abbrev pub replacement : List ℕ
replacement = 0xef ∷ 0xbf ∷ 0xbd ∷ []

-- At the end of the bytes.
abbrev unfinished : Utf8State → List ℕ
unfinished boundary = []
unfinished _ = replacement

-- What a byte that does not go on with its character does, on its own: the text so far, the state, and the
-- bytes of a character begun.
abbrev begin_with : Option Utf8State → ℕ → List ℕ × Utf8State × List ℕ
begin_with none b = (replacement, boundary, [])
begin_with (some boundary) b = (b ∷ [], boundary, [])
begin_with (some next) b = ([], next, b ∷ [])

-- One byte, with the bytes `begun` of a character.
unfoldable pub lossy_step : Utf8State → List ℕ → ℕ → Option Utf8State → List ℕ × Utf8State × List ℕ
lossy_step s begun b (some boundary) = (begun ++ (b ∷ []), boundary, [])
lossy_step s begun b (some next) = ([], next, begun ++ (b ∷ []))
lossy_step boundary begun b none = (replacement, boundary, [])
lossy_step s begun b none =
    let (text, next, begun') = begin_with (utf8_step boundary b) b in
    (replacement ++ text, next, begun')

unfoldable pub lossy : Utf8State → List ℕ → List ℕ → List ℕ
lossy s begun [] = unfinished s
lossy s begun (b ∷ bytes) =
    let (text, next, begun') = lossy_step s begun b (utf8_step s b) in
    text ++ lossy next begun' bytes

unfoldable pub from_utf8_lossy : List ℕ → List ℕ
from_utf8_lossy bytes = lossy boundary [] bytes

-- A character is begun only behind its first byte.
abbrev Begun : Utf8State → List ℕ → Type 0
Begun boundary begun = begun ≡ []
Begun _ begun = Unit

lossy_kept :
    (s next : Utf8State) (begun : List ℕ) (b : ℕ) (bytes : List ℕ)
    → utf8_step s b ≡ some next
    → ((begun' : List ℕ) → Begun next begun' → lossy next begun' bytes ≡ begun' ++ bytes)
    → lossy s begun (b ∷ bytes) ≡ begun ++ (b ∷ bytes)
unfolding lossy lossy_step
lossy_kept s boundary begun b bytes e rest =
    rw (e, rest [] refl) (append_assoc begun (b ∷ []) bytes)
lossy_kept s one_more begun b bytes e rest =
    rw (e, rest (begun ++ (b ∷ [])) tt) (append_assoc begun (b ∷ []) bytes)
lossy_kept s two_more begun b bytes e rest =
    rw (e, rest (begun ++ (b ∷ [])) tt) (append_assoc begun (b ∷ []) bytes)
lossy_kept s three_more begun b bytes e rest =
    rw (e, rest (begun ++ (b ∷ [])) tt) (append_assoc begun (b ∷ []) bytes)
lossy_kept s after_e0 begun b bytes e rest =
    rw (e, rest (begun ++ (b ∷ [])) tt) (append_assoc begun (b ∷ []) bytes)
lossy_kept s after_ed begun b bytes e rest =
    rw (e, rest (begun ++ (b ∷ [])) tt) (append_assoc begun (b ∷ []) bytes)
lossy_kept s after_f0 begun b bytes e rest =
    rw (e, rest (begun ++ (b ∷ [])) tt) (append_assoc begun (b ∷ []) bytes)
lossy_kept s after_f4 begun b bytes e rest =
    rw (e, rest (begun ++ (b ∷ [])) tt) (append_assoc begun (b ∷ []) bytes)

-- What is left of a text behind one of its bytes.
abbrev remains : Option Utf8State → List ℕ → Bool
remains none bytes = false
remains (some next) bytes = utf8_run next bytes

utf8_run-remains :
    (s : Utf8State) (b : ℕ) (bytes : List ℕ)
    → utf8_run s (b ∷ bytes) ≡ true
    → remains (utf8_step s b) bytes ≡ true
unfolding utf8_run
utf8_run-remains boundary b bytes valid = elim (Option-cases (utf8_step boundary b)) [
  | inl bad ↦ absurd (cc (rw (utf8_run, bad) at valid))
  | inr (next, fine) ↦ rw fine (rw (utf8_run, fine) at valid)
]
utf8_run-remains one_more b bytes valid = elim (Option-cases (utf8_step one_more b)) [
  | inl bad ↦ absurd (cc (rw (utf8_run, bad) at valid))
  | inr (next, fine) ↦ rw fine (rw (utf8_run, fine) at valid)
]
utf8_run-remains two_more b bytes valid = elim (Option-cases (utf8_step two_more b)) [
  | inl bad ↦ absurd (cc (rw (utf8_run, bad) at valid))
  | inr (next, fine) ↦ rw fine (rw (utf8_run, fine) at valid)
]
utf8_run-remains three_more b bytes valid = elim (Option-cases (utf8_step three_more b)) [
  | inl bad ↦ absurd (cc (rw (utf8_run, bad) at valid))
  | inr (next, fine) ↦ rw fine (rw (utf8_run, fine) at valid)
]
utf8_run-remains after_e0 b bytes valid = elim (Option-cases (utf8_step after_e0 b)) [
  | inl bad ↦ absurd (cc (rw (utf8_run, bad) at valid))
  | inr (next, fine) ↦ rw fine (rw (utf8_run, fine) at valid)
]
utf8_run-remains after_ed b bytes valid = elim (Option-cases (utf8_step after_ed b)) [
  | inl bad ↦ absurd (cc (rw (utf8_run, bad) at valid))
  | inr (next, fine) ↦ rw fine (rw (utf8_run, fine) at valid)
]
utf8_run-remains after_f0 b bytes valid = elim (Option-cases (utf8_step after_f0 b)) [
  | inl bad ↦ absurd (cc (rw (utf8_run, bad) at valid))
  | inr (next, fine) ↦ rw fine (rw (utf8_run, fine) at valid)
]
utf8_run-remains after_f4 b bytes valid = elim (Option-cases (utf8_step after_f4 b)) [
  | inl bad ↦ absurd (cc (rw (utf8_run, bad) at valid))
  | inr (next, fine) ↦ rw fine (rw (utf8_run, fine) at valid)
]

lossy-append :
    (s : Utf8State) (begun bytes : List ℕ)
    → Begun s begun
    → utf8_run s bytes ≡ true
    → lossy s begun bytes ≡ begun ++ bytes
unfolding utf8_run lossy
lossy-append boundary begun [] h valid = rw h refl
lossy-append one_more begun [] h valid = absurd (cc)
lossy-append two_more begun [] h valid = absurd (cc)
lossy-append three_more begun [] h valid = absurd (cc)
lossy-append after_e0 begun [] h valid = absurd (cc)
lossy-append after_ed begun [] h valid = absurd (cc)
lossy-append after_f0 begun [] h valid = absurd (cc)
lossy-append after_f4 begun [] h valid = absurd (cc)
lossy-append s begun (b ∷ bytes) h valid =
    let later = utf8_run-remains s b bytes valid in
    elim (Option-cases (utf8_step s b)) [
      | inl bad ↦ absurd (cc (rw bad at later))
      | inr (next, fine) ↦
          lossy_kept s next begun b bytes fine
            (λ begun' h'. lossy-append next begun' bytes h' (rw fine at later))
    ]

-- Text stays as it is.
pub from_utf8_lossy-is_utf8 :
    (bytes : List ℕ) → is_utf8 bytes ≡ true → from_utf8_lossy bytes ≡ bytes
unfolding from_utf8_lossy is_utf8
from_utf8_lossy-is_utf8 bytes valid = lossy-append boundary [] bytes refl valid
