-- ===== src/Reader/Held.antt =====
-- What the stream of decryptStreamFrom of lib/tdf3/src/tdf.ts holds in memory, and what it has delivered.
use web_sdk.Base.{
  ℕ, zero, suc, ◌+◌, ◌-◌, ◌≤◌, ◌<◌, ◌≡◌, ◌≢◌, refl, sym, ap, subst, ◌∙◌, true, List, [], ◌∷◌, ◌++◌,
  none, some, Result, ok, err, Error, length, take, drop, set, get_elem?, arith, Bool-cases, inl,
  inr, ◌||◌,
}
use web_sdk.Scheduler.{Config, Scheduler, can_schedule, schedule_next, pump_loop, pump}
use web_sdk.Segments
use web_sdk.Segments.{Chunk, Mailbox, pending, filled, rejected, settle_chunk, reject_chunks}
use web_sdk.Reader.{update_at}

module _ (cfg : Config) where
  pump_loop-grows :
      (fuel : ℕ) (s : Scheduler)
      → (s.scheduled_segments ≤ (pump_loop fuel cfg s).scheduled_segments)
        × ((pump_loop fuel cfg s).consumed_segments ≡ s.consumed_segments)
  unfolding pump_loop schedule_next
  pump_loop-grows zero s = (omega arith, refl)
  pump_loop-grows (suc fuel) s = elim (Bool-cases (can_schedule cfg s)) [
    | inl more ↦
        let (grows, same) = pump_loop-grows fuel (schedule_next cfg s) in
        rw (more, pump_loop) (omega (arith, grows), same)
    | inr done ↦ rw (done, pump_loop) (omega arith, refl)
  ]

  pub pump-grows :
      (s : Scheduler)
      → (s.scheduled_segments ≤ (pump cfg s).scheduled_segments)
        × ((pump cfg s).consumed_segments ≡ s.consumed_segments)
  unfolding pump
  pump-grows s = elim (Bool-cases (s.pumping || s.stopped)) [
    | inl idle ↦ rw idle (omega arith, refl)
    | inr runs ↦
        rw runs (pump_loop-grows cfg.max_concurrent_segment_batches (record s { pumping = true }))
  ]

abbrev pub held_in : Mailbox → ℕ
held_in pending = 0
held_in (rejected e) = 0
held_in (filled p) = 1

-- How many segments are held.
abbrev pub held : List Chunk → ℕ
held [] = 0
held (c ∷ chunks) = held_in c.decrypted_chunk + held chunks

module _ (outcome : ℕ → Result (List ℕ)) where
  -- A segment that is held has been scheduled and not been consumed, and is what its decryption ended with.
  abbrev pub Fine : ℕ → ℕ → ℕ → Mailbox → Type 0
  Fine low high i pending = Unit
  Fine low high i (rejected e) = Unit
  Fine low high i (filled p) = (low ≤ i) × (i < high) × (outcome i ≡ ok p)

  abbrev pub Within : ℕ → ℕ → ℕ → List Chunk → Type 0
  Within low high i [] = Unit
  Within low high i (c ∷ chunks) =
      Fine low high i c.decrypted_chunk × Within low high (suc i) chunks

  Fine-grows :
      (low high high' i : ℕ) (m : Mailbox) → high ≤ high' → Fine low high i m → Fine low high' i m
  Fine-grows low high high' i pending h f = tt
  Fine-grows low high high' i (rejected e) h f = tt
  Fine-grows low high high' i (filled p) h (a, b, c) = (a, omega arith, c)

  pub Within-grows :
      (low high high' i : ℕ) (chunks : List Chunk)
      → high ≤ high'
      → Within low high i chunks
      → Within low high' i chunks
  Within-grows low high high' i [] h w = tt
  Within-grows low high high' i (c ∷ chunks) h (f, w) = (
    Fine-grows low high high' i c.decrypted_chunk h f,
    Within-grows low high high' (suc i) chunks h w,
  )

  -- The one at the lower bound is given up, and no other is.
  Fine-next : (low high i : ℕ) (m : Mailbox) → i ≢ low → Fine low high i m → Fine (suc low) high i m
  Fine-next low high i pending h f = tt
  Fine-next low high i (rejected e) h f = tt
  Fine-next low high i (filled p) h (a, b, c) = (omega arith, b, c)

  Within-next :
      (low high i : ℕ) (chunks : List Chunk)
      → low < i
      → Within low high i chunks
      → Within (suc low) high i chunks
  Within-next low high i [] h w = tt
  Within-next low high i (c ∷ chunks) h (f, w) = (
    Fine-next low high i c.decrypted_chunk (omega arith) f,
    Within-next low high (suc i) chunks (omega arith) w,
  )

  pub Within-set :
      (low high k i : ℕ) (chunks : List Chunk) (chunk : Chunk)
      → i + k ≡ low
      → Within low high i chunks
      → Within (suc low) high i (set chunks k (record chunk { decrypted_chunk = pending }))
  Within-set low high k i [] chunk e w = tt
  Within-set low high zero i (c ∷ chunks) chunk e (f, w) =
      (tt, Within-next low high (suc i) chunks (omega arith) w)
  Within-set low high (suc k) i (c ∷ chunks) chunk e (f, w) = (
    Fine-next low high i c.decrypted_chunk (omega arith) f,
    Within-set low high k (suc i) chunks chunk (omega arith) w,
  )

  Fine-settle :
      (low high i : ℕ) (m : Mailbox) (r : Result (List ℕ))
      → low ≤ i
      → i < high
      → r ≡ outcome i
      → Fine low high i m
      → Fine low high i (Segments.settle r m)
  unfolding Segments.settle
  Fine-settle low high i pending (ok p) a b e f = (a, b, sym e)
  Fine-settle low high i pending (err x) a b e f = tt
  Fine-settle low high i (filled p) r a b e f = f
  Fine-settle low high i (rejected x) r a b e f = tt

  pub Within-settle :
      (low high k i : ℕ) (chunks : List Chunk)
      → low ≤ i + k
      → i + k < high
      → Within low high i chunks
      → Within low high i (update_at k (settle_chunk (outcome (i + k))) chunks)
  unfolding settle_chunk
  Within-settle low high k i [] a b w = tt
  Within-settle low high zero i (c ∷ chunks) a b (f, w) =
      let same : i + 0 ≡ i = omega arith in
      (
        Fine-settle low high i c.decrypted_chunk (outcome (i + 0)) (omega arith) (omega arith)
            (ap outcome same) f,
        w,
      )
  Within-settle low high (suc k) i (c ∷ chunks) a b (f, w) =
      let same : suc i + k ≡ i + suc k = omega arith in
      (
        f,
        subst (λ n. Within low high (suc i) (update_at k (settle_chunk (outcome n)) chunks)) same
            (Within-settle low high k (suc i) chunks (omega arith) (omega arith) w),
      )

  Fine-reject :
      (low high i : ℕ) (m : Mailbox) (e : Error)
      → Fine low high i m
      → Fine low high i (Segments.settle (err e) m)
  unfolding Segments.settle
  Fine-reject low high i pending e f = tt
  Fine-reject low high i (filled p) e f = f
  Fine-reject low high i (rejected x) e f = tt

  pub Within-reject :
      (low high k i : ℕ) (chunks : List Chunk) (e : Error)
      → Within low high i chunks
      → Within low high i (take k chunks ++ reject_chunks (drop k chunks) e)
  unfolding reject_chunks settle_chunk
  Within-reject low high zero i [] e w = tt
  Within-reject low high zero i (c ∷ chunks) e (f, w) =
      (Fine-reject low high i c.decrypted_chunk e f, Within-reject low high zero (suc i) chunks e w)
  Within-reject low high (suc k) i [] e w = tt
  Within-reject low high (suc k) i (c ∷ chunks) e (f, w) =
      (f, Within-reject low high k (suc i) chunks e w)

  held_in-le :
      (low high i n : ℕ) (m : Mailbox)
      → Fine low high i m
      → n ≤ high - (low + (suc i - low))
      → held_in m + n ≤ high - (low + (i - low))
  held_in-le low high i n pending f h = omega arith
  held_in-le low high i n (rejected e) f h = omega arith
  held_in-le low high i n (filled p) (a, b, c) h = omega arith

  pub held-le :
      (low high i : ℕ) (chunks : List Chunk)
      → Within low high i chunks
      → held chunks ≤ high - (low + (i - low))
  held-le low high i [] w = omega arith
  held-le low high i (c ∷ chunks) (f, w) =
      held_in-le low high i (held chunks) c.decrypted_chunk f (held-le low high (suc i) chunks w)

  pub Within-get :
      (low high k i : ℕ) (chunks : List Chunk) {c : Chunk}
      → get_elem? chunks k ≡ some c
      → Within low high i chunks
      → Fine low high (i + k) c.decrypted_chunk
  Within-get low high k i [] e w = cc
  Within-get low high zero i (d ∷ chunks) {c} e (f, w) =
      let there : some d ≡ some c = e in
      let same : d ≡ c = cc in
      let place : i ≡ i + 0 = omega arith in
      subst (λ n. Fine low high n c.decrypted_chunk) place
        (subst (λ x. Fine low high i x.decrypted_chunk) same f)
  Within-get low high (suc k) i (d ∷ chunks) {c} e (f, w) =
      let place : suc i + k ≡ i + suc k = omega arith in
      subst (λ n. Fine low high n c.decrypted_chunk) place
        (Within-get low high k (suc i) chunks e w)

  -- The pieces are what the segments from one on were decrypted to.
  abbrev pub Delivered : ℕ → List (List ℕ) → Type 0
  Delivered i [] = Unit
  Delivered i (p ∷ pieces) = (outcome i ≡ ok p) × Delivered (suc i) pieces

  pub Delivered-append :
      (i : ℕ) (pieces : List (List ℕ)) (p : List ℕ)
      → Delivered i pieces
      → outcome (i + length pieces) ≡ ok p
      → Delivered i (pieces ++ p ∷ [])
  Delivered-append i [] p d e = let place : i ≡ i + 0 = omega arith in (ap outcome place ∙ e, tt)
  Delivered-append i (q ∷ pieces) p (d, more) e =
      let place : suc i + length pieces ≡ i + suc (length pieces) = omega arith in
      (d, Delivered-append (suc i) pieces p more (ap outcome place ∙ e))

pub get_elem?-lt :
    (k : ℕ) (chunks : List Chunk) {c : Chunk} → get_elem? chunks k ≡ some c → k < length chunks
get_elem?-lt k [] e = cc
get_elem?-lt zero (d ∷ chunks) e = omega arith
get_elem?-lt (suc k) (d ∷ chunks) e = omega (arith, get_elem?-lt k chunks e)

pub get_elem?-none : (k : ℕ) (chunks : List Chunk) → get_elem? chunks k ≡ none → length chunks ≤ k
get_elem?-none k [] e = omega arith
get_elem?-none zero (d ∷ chunks) e = cc
get_elem?-none (suc k) (d ∷ chunks) e = omega (arith, get_elem?-none k chunks e)

pub length-update_at :
    (k : ℕ) (f : Chunk → Chunk) (chunks : List Chunk)
    → length (update_at k f chunks) ≡ length chunks
length-update_at k f [] = refl
length-update_at zero f (c ∷ chunks) = refl
length-update_at (suc k) f (c ∷ chunks) = ap suc (length-update_at k f chunks)

pub length-reject :
    (k : ℕ) (chunks : List Chunk) (e : Error)
    → length (take k chunks ++ reject_chunks (drop k chunks) e) ≡ length chunks
unfolding reject_chunks
length-reject zero [] e = refl
length-reject zero (c ∷ chunks) e = ap suc (length-reject zero chunks e)
length-reject (suc k) [] e = refl
length-reject (suc k) (c ∷ chunks) e = ap suc (length-reject k chunks e)
