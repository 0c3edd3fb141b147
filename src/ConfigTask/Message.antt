-- ===== src/ConfigTask/Message.antt =====
-- `truncateMessage` of agentendpoint/config_task.go, over bytes.
use osconfig.Base.{
  ℕ, zero, suc, ◌+◌, ◌-◌, ◌/◌, ◌≤◌, ◌≡◌, String, List, [], ◌∷◌, ◌++◌, arith, Result, ok, panicked,
  ltb, leb, if◌then◌else◌, length, length-append, min, Bool-cases, inl, inr,
}

abbrev pub take : ℕ → List ℕ → List ℕ
take zero xs = []
take (suc n) [] = []
take (suc n) (x ∷ xs) = x ∷ take n xs

abbrev pub drop : ℕ → List ℕ → List ℕ
drop zero xs = xs
drop (suc n) [] = []
drop (suc n) (x ∷ xs) = drop n xs

abbrev dots : List ℕ
dots = b'.' ∷ b'.' ∷ b'.' ∷ []

-- A slice from or to a negative index panics.
unfoldable pub truncate_message : List ℕ → ℕ → Result String (List ℕ)
truncate_message msg size =
    let cut = size / 2 in
    if ltb size (length msg)
    then if leb (cut + 3) size
      then ok (take (size - (cut + 3)) msg ++ (dots ++ drop (length msg - cut) msg))
      else panicked "slice bounds out of range"
    else ok msg

abbrev pub max_error_message : ℕ
max_error_message = 512

-- The message as a step records it.
unfoldable pub truncated : List ℕ → List ℕ
unfolding truncate_message
truncated msg = elim (truncate_message msg max_error_message) [ ok text ↦ text | _ ↦ [] ]

length-take : (n : ℕ) (xs : List ℕ) → length (take n xs) ≡ min n (length xs)
length-take zero xs = omega arith
length-take (suc n) [] = omega arith
length-take (suc n) (x ∷ xs) = omega (arith, length-take n xs)

length-drop : (n : ℕ) (xs : List ℕ) → length (drop n xs) ≡ length xs - n
length-drop zero xs = omega arith
length-drop (suc n) [] = omega arith
length-drop (suc n) (x ∷ xs) = omega (arith, length-drop n xs)

cut_length :
    (msg : List ℕ) (size : ℕ)
    → 5 ≤ size
    → size ≤ length msg
    → length (take (size - (size / 2 + 3)) msg ++ (dots ++ drop (length msg - size / 2) msg))
      ≡ min (length msg) size
cut_length msg size h le = omega (
  arith,
  length-append (take (size - (size / 2 + 3)) msg) (dots ++ drop (length msg - size / 2) msg),
  length-take (size - (size / 2 + 3)) msg,
  length-drop (length msg - size / 2) msg,
)

-- For a size of 5 at least the truncation never panics; its result has the length of the message,
-- or the size where the message is longer.
pub truncate_message-length :
    (msg : List ℕ) (size : ℕ)
    → 5 ≤ size
    → (text : List ℕ) × (truncate_message msg size ≡ ok text)
      × (length text ≡ min (length msg) size)
unfolding truncate_message
truncate_message-length msg size h = elim (Bool-cases (ltb size (length msg))) [
  | inl longer ↦ (
    take (size - (size / 2 + 3)) msg ++ (dots ++ drop (length msg - size / 2) msg),
    ground arith,
    cut_length msg size h (ground arith),
  )
  | inr fits ↦ (msg, ground arith, ground arith)
]
