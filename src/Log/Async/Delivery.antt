-- ===== src/Log/Async/Delivery.antt =====
-- What is on its way from the front ends to the back end.
use mathlib.Core.List.{append-nil, append_assoc}
use dws.Base.{
  Returns, ℕ, zero, suc, ◌+◌, ◌<◌, ◌≡◌, refl, ap, ap₂, sym, ◌∙◌, arith, List, [], ◌∷◌, ◌++◌, length,
  take, Option, none, some, length-append, ltb, Bool-cases, inl, inr,
}
use dws.Log.Stream.{FixedBuffer, avail, to_string}
use dws.Log.Stream.Text.{Holds, append_fits, avail-Holds, init-Holds}
use dws.Log.Async.{AsyncLogging, Backend, fresh, append, take_back, texts}

-- Each buffer is sound.
abbrev pub Sound : ℕ → List FixedBuffer → Type 0
Sound size [] = Unit
Sound size (b ∷ bs) = Holds size (to_string b) b × Sound size bs

abbrev pub Spare : ℕ → Option FixedBuffer → Type 0
Spare size none = Unit
Spare size (some b) = Holds size [] b

-- The front end between two steps.
pub record Ready (size : ℕ) (a : AsyncLogging) : Type 0 where
  pub current : Holds size (to_string a.current_buffer) a.current_buffer
  pub next : Spare size a.next_buffer
  pub full : Sound size a.buffers
  -- `nextBuffer_` is gone only after a buffer has been filled.
  pub used : a.next_buffer ≡ none → 0 < length a.buffers

-- The back end between two turns: it has two empty buffers.
pub record Rested (size : ℕ) (b : Backend) : Type 0 where
  pub first : (x : FixedBuffer) × (b.new_buffer1 ≡ some x) × Holds size [] x
  pub second : (x : FixedBuffer) × (b.new_buffer2 ≡ some x) × Holds size [] x

-- What has been logged and not yet been written.
abbrev pub pending : AsyncLogging → List ℕ
pending a = texts a.buffers ++ to_string a.current_buffer

pub texts-append :
    (xs : List FixedBuffer) (b : FixedBuffer) → texts (xs ++ b ∷ []) ≡ texts xs ++ to_string b
unfolding texts
texts-append [] b = append-nil (to_string b)
texts-append (x ∷ xs) b =
    ap (λ l. to_string x ++ l) (texts-append xs b)
    ∙ sym (append_assoc (to_string x) (texts xs) (to_string b))

pub Sound-append :
    (size : ℕ) (xs : List FixedBuffer) (b : FixedBuffer)
    → Sound size xs
    → Holds size (to_string b) b
    → Sound size (xs ++ b ∷ [])
Sound-append size [] b s h = (h, tt)
Sound-append size (x ∷ xs) b s h = (s.0, Sound-append size xs b s.1 h)

pub Sound-take : (size n : ℕ) (xs : List FixedBuffer) → Sound size xs → Sound size (take n xs)
Sound-take size zero xs s = tt
Sound-take size (suc n) [] s = tt
Sound-take size (suc n) (x ∷ xs) s = (s.0, Sound-take size n xs s.1)

pub self :
    {size : ℕ} {text : List ℕ} {b : FixedBuffer} → Holds size text b → Holds size (to_string b) b
self h = record { whole = h.whole; room = h.room; content = refl }

fresh-Holds :
    (size : ℕ) (o : Option FixedBuffer) → 0 < size → Spare size o → Holds size [] (fresh size o)
unfolding fresh
fresh-Holds size none p s = init-Holds size p
fresh-Holds size (some b) p s = s

pub take_back_lem :
    (size : ℕ) (bs : List FixedBuffer)
    → Sound size bs
    → 0 < length bs
    → Returns (take_back bs) (λ (r : FixedBuffer × List FixedBuffer).
      Holds size (to_string r.0) r.0 × Sound size r.1 × (suc (length r.1) ≡ length bs))
unfolding take_back
take_back_lem size [] s h = absurd (omega arith)
take_back_lem size (x ∷ []) s h = ((x, []), refl, (s.0, tt, refl))
take_back_lem size (x ∷ y ∷ ys) s h =
    let (r, e, p) = take_back_lem size (y ∷ ys) s.1 (omega arith) in
    ((r.0, x ∷ r.1), rw e refl, (p.0, (s.0, p.1), ap suc p.2))

-- A front end that logs a line shorter than a buffer keeps all that was pending, and adds the line
-- behind it.
pub append-pending :
    (size : ℕ) (a : AsyncLogging) (line : List ℕ)
    → Ready size a
    → length line < size
    → Ready size (append size a line) × (pending (append size a line) ≡ pending a ++ line)
unfolding append
append-pending size a line v lt = elim (Bool-cases (ltb (length line) (avail a.current_buffer))) [
  | inl e ↦
      let k : length (to_string a.current_buffer) + length line < size =
        ground (arith, e, avail-Holds v.current) in
      let p = append_fits size (to_string a.current_buffer) a.current_buffer line v.current k in
      rw e (
        record { current = self p; next = v.next; full = v.full; used = v.used },
        ap (λ l. texts a.buffers ++ l) p.content
            ∙ sym (append_assoc (texts a.buffers) (to_string a.current_buffer) line),
      )
  | inr e ↦
      let p =
        append_fits size [] (fresh size a.next_buffer) line
          (fresh-Holds size a.next_buffer (omega arith) v.next) (omega arith) in
      rw e (
        record {
          current = self p;
          next = tt;
          full = Sound-append size a.buffers a.current_buffer v.full v.current;
          used = λ q. omega (arith, length-append a.buffers (a.current_buffer ∷ []));
        },
        ap₂ ◌++◌ (texts-append a.buffers a.current_buffer) p.content,
      )
]
