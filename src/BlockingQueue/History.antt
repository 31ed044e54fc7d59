-- ===== src/BlockingQueue/History.antt =====
-- What the data structure behind a queue of data_structures/blocking_queue.c was asked, and how it
-- answered, where it is to hand its items out by rank.
use c_utils.Base.{ℕ, ◌+◌, ◌-◌, ◌≡◌, ◌≤◌, ◌<◌, Bool, List, [], ◌∷◌, ok, ◌>>=◌, ◌==◌, if◌then◌else◌}
use c_utils.Heap.Array.{one_if}
use c_utils.BlockingQueue.{Backing, null}

-- What a data structure was asked to do, and how it answered: an item that it took in, one that it
-- gave out, that it had none to give out, and that it was emptied.
pub data Entry : Type 0 where
  took_in gave : ℕ → Entry
  had_none emptied : Entry

-- How often it has an item after all that, the last entry first.
unfoldable pub contents : List Entry → ℕ → ℕ
contents [] x = 0
contents (took_in y ∷ es) x = contents es x + one_if y x
contents (gave y ∷ es) x = contents es x - one_if y x
contents (had_none ∷ es) x = contents es x
contents (emptied ∷ es) x = 0

-- Each item that was given out was there, and none of a higher rank was; it had none to give out only
-- where there was none.
pub data IsLegal (rank : ℕ → ℕ) : List Entry → Type 0 where
  start : IsLegal rank []
  take_in : {es : List Entry} (y : ℕ) → IsLegal rank es → IsLegal rank (took_in y ∷ es)
  give :
      {es : List Entry} (y : ℕ)
      → 0 < contents es y
      → ((x : ℕ) → 0 < contents es x → rank x ≤ rank y)
      → IsLegal rank es
      → IsLegal rank (gave y ∷ es)
  have_none :
      {es : List Entry}
      → ((x : ℕ) → contents es x ≡ 0)
      → IsLegal rank es
      → IsLegal rank (had_none ∷ es)
  empty : {es : List Entry} → IsLegal rank es → IsLegal rank (emptied ∷ es)

pub record Log (S : Type 0) : Type 0 where
  pub store : S
  pub history : List Entry

abbrev pub put_in : ℕ → Bool → List Entry → List Entry
put_in item done es = if done then took_in item ∷ es else es

abbrev pub take_out : ℕ → List Entry → List Entry
take_out item es = (if item == null then had_none else gave item) ∷ es

abbrev pub logged : {S : Type 0} → Backing S → Backing (Log S)
logged b = record {
  add = λ item g. b.add item g.store >>= λ (done, s).
      ok (done, record { store = s; history = put_in item done g.history });
  take = λ g. b.take g.store >>= λ (item, s).
      ok (item, record { store = s; history = take_out item g.history });
  remove_all =
      λ g. b.remove_all g.store >>= λ s. ok (record { store = s; history = emptied ∷ g.history });
  delete_all =
      λ g. b.delete_all g.store >>= λ s. ok (record { store = s; history = emptied ∷ g.history });
  size = λ g. b.size g.store;
  destroy = λ g. b.destroy g.store >>= λ s. ok (record g { store = s });
}
