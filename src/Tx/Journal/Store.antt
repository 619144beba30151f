-- ===== src/Tx/Journal/Store.antt =====
-- What recovery finds in the in-memory store after any sequence of writes.
use aria_underlay.Base.{
  Text, List, [], ◌∷◌, Option, none, some, true, Memᴰ, ◌≡◌, refl, sym, ◌∙◌, ap, subst, ◌↔◌,
  if◌then◌else◌, Bool-cases, inl, inr, text_ord, arith,
}
use aria_underlay.Base.BTree.{
  get, insert, same, values, IsSorted, Entries, Entries-insert, Entries-found, insert-IsSorted,
  get-insert,
}
use aria_underlay.Base.Mem.{mem_of_filter, mem_filter}
use aria_underlay.Tx.Phase.{requires_recovery}
use aria_underlay.Tx.Journal.{TxJournalRecord, InMemoryTxJournalStore, put, find, list_recoverable}

-- The writes of a list, in order.
unfoldable pub put_all : List TxJournalRecord → InMemoryTxJournalStore → InMemoryTxJournalStore
put_all [] s = s
put_all (r ∷ rs) s = put_all rs (put r s)

-- The last record of a transaction in a list of writes, or else what was there before.
abbrev pub last_written :
    Option TxJournalRecord → Text → List TxJournalRecord → Option TxJournalRecord
last_written before tx_id [] = before
last_written before tx_id (r ∷ rs) =
    last_written (if same tx_id r.tx_id then some r else before) tx_id rs

find-put_all :
    (tx_id : Text) (rs : List TxJournalRecord) (s : InMemoryTxJournalStore)
    → find tx_id (put_all rs s) ≡ last_written (find tx_id s) tx_id rs
unfolding find put_all put
find-put_all tx_id [] s = refl
find-put_all tx_id (r ∷ rs) s =
    find-put_all tx_id rs (put r s)
    ∙ ap (λ o. last_written o tx_id rs) (get-insert tx_id r.tx_id r s)

-- Each record stands under its own identifier.
abbrev IsKeyed : InMemoryTxJournalStore → Type 0
IsKeyed s = IsSorted s × Entries (λ k r. k ≡ r.tx_id) s

put_all-IsKeyed :
    (rs : List TxJournalRecord) (s : InMemoryTxJournalStore) → IsKeyed s → IsKeyed (put_all rs s)
unfolding put_all put
put_all-IsKeyed [] s k = k
put_all-IsKeyed (r ∷ rs) s k =
    put_all-IsKeyed rs (insert r.tx_id r s)
      (insert-IsSorted r.tx_id r s k.0, Entries-insert (λ k r. k ≡ r.tx_id) r.tx_id r s refl k.1)

mem_of_values :
    (P : Text → TxJournalRecord → Type 0) (x : TxJournalRecord) (s : InMemoryTxJournalStore)
    → Entries P s
    → Memᴰ x (values s)
    → (k : Text) × P k x
mem_of_values P x [] e m = elim m [ ]
mem_of_values P x ((k, r) ∷ s) e (Memᴰ.head q) = (k, subst (P k) (sym q) e.0)
mem_of_values P x ((k, r) ∷ s) e (Memᴰ.tail m) = mem_of_values P x s e.1 m

get_mem :
    (k : Text) (x : TxJournalRecord) (s : InMemoryTxJournalStore)
    → get k s ≡ some x
    → Memᴰ x (values s)
unfolding get
get_mem k x [] g = cc
get_mem k x ((j, r) ∷ s) g = elim (Bool-cases (same k j)) [
  | inl h ↦ let there : x ≡ r = ground arith in Memᴰ.head there
  | inr h ↦ Memᴰ.tail (get_mem k x s (rw h at g))
]

both-Entries :
    (P Q : Text → TxJournalRecord → Type 0) (s : InMemoryTxJournalStore)
    → Entries P s
    → Entries Q s
    → Entries (λ k v. P k v × Q k v) s
both-Entries P Q [] p q = tt
both-Entries P Q ((k, r) ∷ s) p q = ((p.0, q.0), both-Entries P Q s p.1 q.1)

values_iff :
    (x : TxJournalRecord) (s : InMemoryTxJournalStore)
    → IsKeyed s
    → Memᴰ x (values s) ↔ (get x.tx_id s ≡ some x)
values_iff x s k = (
  λ m.
      let (j, p) =
        mem_of_values (λ j v. (get j s ≡ some v) × (j ≡ v.tx_id)) x s
          (both-Entries _ _ s (Entries-found s k.0) k.1) m in
      subst (λ i. get i s ≡ some x) p.1 p.0,
  λ g. get_mem x.tx_id x s g,
)

-- After any writes to an empty store, the transactions listed for recovery are, each by its last record,
-- those whose last record requires recovery.
pub list_recoverable_iff :
    (rs : List TxJournalRecord) (x : TxJournalRecord)
    → Memᴰ x (list_recoverable (put_all rs []))
      ↔ ((requires_recovery x.phase ≡ true) × (last_written none x.tx_id rs ≡ some x))
unfolding list_recoverable find get
list_recoverable_iff rs x = (
  λ m.
      let (a, b) = mem_of_filter _ x _ m in
      (b, sym (find-put_all x.tx_id rs []) ∙ (values_iff x _ (put_all-IsKeyed rs [] (tt, tt))).0 a),
  λ h.
      mem_filter _ x _
        ((values_iff x _ (put_all-IsKeyed rs [] (tt, tt))).1 (find-put_all x.tx_id rs [] ∙ h.1))
        h.0,
)
