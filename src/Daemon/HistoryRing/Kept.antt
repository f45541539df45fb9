-- ===== src/Daemon/HistoryRing/Kept.antt =====
-- crates/daemon/src/backend/mod.rs: what the ring of chunks keeps of the output.
use native.Mathlib.Decide.{dec_lt}
use agent_workspace.Prelude.{
  ℕ, ◌+◌, ◌-◌, ◌≤◌, ◌<◌, ◌≡◌, refl, sym, ap, ◌∙◌, ◌≢◌, ◌⊎◌, inl, inr, true, false, List, [], ◌∷◌,
  ◌++◌, append-nil, append_assoc, arith, ltb, if◌then◌else◌, length, length-append,
}
use agent_workspace.Daemon.HistoryRing.{HistoryRing, new, evict, push, concat}

-- Of the chunks that went, the last would not have fitted with what was kept.
abbrev pub Overflows : ℕ → ℕ → List (List ℕ) → Type 0
Overflows cap bytes [] = Unit
Overflows cap bytes (c ∷ []) = cap < length c + bytes
Overflows cap bytes (c ∷ d ∷ cs) = Overflows cap bytes (d ∷ cs)

-- Its bytes are those of its chunks, within the cap or a single chunk; they end the output, and no
-- longer end of it fits.
Keeps : List (List ℕ) → HistoryRing → Type 0
Keeps output r =
    (r.bytes ≡ length (concat r.chunks))
    × ((r.bytes ≤ r.cap) ⊎ (length r.chunks ≤ 1))
    × ((output ≡ []) ⊎ (1 ≤ length r.chunks))
    × ((gone : List (List ℕ)) × (output ≡ gone ++ r.chunks) × Overflows r.cap r.bytes gone)

concat-snoc : (cs : List (List ℕ)) (c : List ℕ) → concat (cs ++ c ∷ []) ≡ concat cs ++ c
unfolding concat
concat-snoc [] c = append-nil c
concat-snoc (d ∷ cs) c = ap (◌++◌ d) (concat-snoc cs c) ∙ sym (append_assoc d (concat cs) c)

-- What is evicted.
unfoldable gone_of : ℕ → ℕ → List (List ℕ) → List (List ℕ)
gone_of cap bytes [] = []
gone_of cap bytes (c ∷ []) = []
gone_of cap bytes (c ∷ d ∷ cs) =
    let rest = gone_of cap (bytes - length c) (d ∷ cs) in if ltb cap bytes then c ∷ rest else []

gone-evict :
    (cap bytes : ℕ) (cs : List (List ℕ)) → cs ≡ gone_of cap bytes cs ++ (evict cap bytes cs).0
unfolding evict gone_of
gone-evict cap bytes [] = refl
gone-evict cap bytes (c ∷ []) = refl
gone-evict cap bytes (c ∷ d ∷ cs) = ground (arith, gone-evict cap (bytes - length c) (d ∷ cs))

evict-none :
    (cap bytes : ℕ) (cs : List (List ℕ))
    → gone_of cap bytes cs ≡ []
    → (evict cap bytes cs).1 ≡ bytes
unfolding evict gone_of
evict-none cap bytes [] e = refl
evict-none cap bytes (c ∷ []) e = refl
evict-none cap bytes (c ∷ d ∷ cs) e = ground arith

Overflows-cons :
    (cap bytes : ℕ) (c : List ℕ) (gone : List (List ℕ))
    → (gone ≡ [] → cap < length c + bytes)
    → Overflows cap bytes gone
    → Overflows cap bytes (c ∷ gone)
Overflows-cons cap bytes c [] h o = h refl
Overflows-cons cap bytes c (d ∷ ds) h o = o

evict-Overflows :
    (cap bytes : ℕ) (cs : List (List ℕ))
    → bytes ≡ length (concat cs)
    → Overflows cap (evict cap bytes cs).1 (gone_of cap bytes cs)
unfolding evict concat gone_of
evict-Overflows cap bytes [] e = tt
evict-Overflows cap bytes (c ∷ []) e = tt
evict-Overflows cap bytes (c ∷ d ∷ cs) e = elim (dec_lt cap bytes) [
  | yes over ↦
      let rest = bytes - length c in
      let kept = evict cap rest (d ∷ cs) in
      let gone = gone_of cap rest (d ∷ cs) in
      let whole = length-append c (d ++ concat cs) in
      let small : rest ≡ length (concat (d ∷ cs)) = omega (arith, whole) in
      let step : Overflows cap kept.1 (c ∷ gone) =
        Overflows-cons cap kept.1 c gone
          (λ none. omega (arith, whole, evict-none cap rest (d ∷ cs) none))
          (evict-Overflows cap rest (d ∷ cs) small) in
      let b : ltb cap bytes ≡ true = ground arith in rw b step
  | no fits ↦ let b : ltb cap bytes ≡ false = ground arith in rw b tt
]

Overflows-more :
    (cap bytes more : ℕ) (gone : List (List ℕ))
    → bytes ≤ more
    → Overflows cap bytes gone
    → Overflows cap more gone
Overflows-more cap bytes more [] le o = tt
Overflows-more cap bytes more (c ∷ []) le o = omega arith
Overflows-more cap bytes more (c ∷ d ∷ cs) le o = Overflows-more cap bytes more (d ∷ cs) le o

Overflows-append :
    (cap bytes : ℕ) (gone : List (List ℕ)) (c : List ℕ) (cs : List (List ℕ))
    → Overflows cap bytes (c ∷ cs)
    → Overflows cap bytes (gone ++ (c ∷ cs))
Overflows-append cap bytes [] c cs o = o
Overflows-append cap bytes (g ∷ []) c cs o = o
Overflows-append cap bytes (g ∷ h ∷ gs) c cs o = Overflows-append cap bytes (h ∷ gs) c cs o

Overflows-both :
    (cap before after : ℕ) (gone went : List (List ℕ))
    → Overflows cap before gone
    → Overflows cap after went
    → (went ≡ [] → before ≤ after)
    → Overflows cap after (gone ++ went)
Overflows-both cap before after gone [] o n le =
    rw (append-nil gone) (Overflows-more cap before after gone (le refl) o)
Overflows-both cap before after gone (c ∷ cs) o n le = Overflows-append cap after gone c cs n

evict-bytes :
    (cap bytes : ℕ) (cs : List (List ℕ))
    → bytes ≡ length (concat cs)
    → (evict cap bytes cs).1 ≡ length (concat (evict cap bytes cs).0)
unfolding evict concat
evict-bytes cap bytes [] e = e
evict-bytes cap bytes (c ∷ []) e = e
evict-bytes cap bytes (c ∷ d ∷ cs) e =
    ground (arith, evict-bytes cap (bytes - length c) (d ∷ cs), length-append c (d ++ concat cs))

evict-bounded :
    (cap bytes : ℕ) (cs : List (List ℕ))
    → (length cs ≡ 0) ⊎ (((evict cap bytes cs).1 ≤ cap) ⊎ (length (evict cap bytes cs).0 ≤ 1))
unfolding evict
evict-bounded cap bytes [] = inl refl
evict-bounded cap bytes (c ∷ []) = ground arith
evict-bounded cap bytes (c ∷ d ∷ cs) = ground (arith, evict-bounded cap (bytes - length c) (d ∷ cs))

evict-some : (cap bytes : ℕ) (cs : List (List ℕ)) → (cs ≡ []) ⊎ (1 ≤ length (evict cap bytes cs).0)
unfolding evict
evict-some cap bytes [] = inl refl
evict-some cap bytes (c ∷ []) = inr (omega arith)
evict-some cap bytes (c ∷ d ∷ cs) = ground (arith, evict-some cap (bytes - length c) (d ∷ cs))

length-snoc : (cs : List (List ℕ)) (c : List ℕ) → length (cs ++ c ∷ []) ≢ 0
length-snoc cs c = ground (arith, length-append cs (c ∷ []))

Keeps-push :
    (output : List (List ℕ)) (r : HistoryRing) (chunk : List ℕ)
    → Keeps output r
    → Keeps (output ++ chunk ∷ []) (push r chunk)
unfolding Keeps push
Keeps-push output r chunk (counted, bounded, some_left, (gone, split, over)) =
    let cs = r.chunks ++ chunk ∷ [] in
    let total = r.bytes + length chunk in
    let went = gone_of r.cap total cs in
    let kept = evict r.cap total cs in
    let all : total ≡ length (concat cs) =
      ground (arith, concat-snoc r.chunks chunk, length-append (concat r.chunks) chunk) in
    (
      evict-bytes r.cap total cs all,
      ground (arith, evict-bounded r.cap total cs, length-snoc r.chunks chunk),
      ground (arith, evict-some r.cap total cs, length-snoc r.chunks chunk),
      (
        gone ++ went,
        ap (λ o. o ++ chunk ∷ []) split
            ∙ append_assoc gone r.chunks (chunk ∷ [])
            ∙ ap (◌++◌ gone) (gone-evict r.cap total cs)
            ∙ sym (append_assoc gone went kept.0),
        Overflows-both r.cap r.bytes kept.1 gone went over (evict-Overflows r.cap total cs all)
            (λ none. omega (arith, evict-none r.cap total cs none)),
      ),
    )

unfoldable pub push_all : HistoryRing → List (List ℕ) → HistoryRing
push_all r [] = r
push_all r (c ∷ cs) = push_all (push r c) cs

Keeps-push_all :
    (output : List (List ℕ)) (r : HistoryRing) (cs : List (List ℕ))
    → Keeps output r
    → Keeps (output ++ cs) (push_all r cs)
unfolding push_all
Keeps-push_all output r [] k = rw (append-nil output) k
Keeps-push_all output r (c ∷ cs) k =
    rw (append_assoc output (c ∷ []) cs) at
      (Keeps-push_all (output ++ c ∷ []) (push r c) cs (Keeps-push output r c k))

cap-push_all : (r : HistoryRing) (cs : List (List ℕ)) → (push_all r cs).cap ≡ r.cap
unfolding push_all push
cap-push_all r [] = refl
cap-push_all r (c ∷ cs) = cap-push_all (push r c) cs

-- A new ring that is given any chunks holds the last of them, as many as fit in the cap and always
-- the very last: of those that went, the last would have put what is held over the cap. It counts
-- its bytes exactly, and they are within the cap unless a single chunk is left.
pub new-push_all :
    (cap : ℕ) (cs : List (List ℕ))
    → let r = push_all (new cap) cs in
      (r.bytes ≡ length (concat r.chunks))
      × ((r.bytes ≤ cap) ⊎ (length r.chunks ≤ 1))
      × ((cs ≡ []) ⊎ (1 ≤ length r.chunks))
      × ((gone : List (List ℕ)) × (cs ≡ gone ++ r.chunks) × Overflows cap r.bytes gone)
unfolding new Keeps concat
new-push_all cap cs =
    rw (cap-push_all (new cap) cs) at
      (Keeps-push_all [] (new cap) cs (refl, (ground arith), inl refl, ([], refl, tt)))
