-- ===== src/Indexer/Apply/Refused.antt =====
-- The events that stop the indexer.
use sterun.Common.{
  ◌≤◌, ◌<◌, Bool, true, false, Option, none, some, if◌then◌else◌, ◌≡◌, ◌≢◌, ◌⊎◌, ◌↔◌, arith, nat-Eq,
  pair-Eq, get,
}
use sterun.Indexer.Chain.{
  ChainEvent, ChainCategory, ChainRecord, DecodedEvent, event_created, category_added,
  quota_increased, record_entered,
}
use sterun.Indexer.Tables.{Index}
use sterun.Indexer.Apply.{Hydration, event_is_indexed}

-- What was not read back, or differs from the event.
abbrev pub Missing {ℓ} : {A : Type ℓ} → (A → Type 0) → Option A → Type 0
Missing Differs none = Unit
Missing Differs (some a) = Differs a

abbrev pub Contradicts : Index → Hydration → DecodedEvent → Type 0
Contradicts s h (event_created event_id organiser) =
    Missing (λ (e : ChainEvent). e.organiser ≢ organiser) (get h.events event_id)
Contradicts s h (category_added event_id category_id price quota) =
    (event_is_indexed s event_id ≡ true)
    × Missing (λ (c : ChainCategory). (c.quota < quota) ⊎ (c.price_stroops ≢ price))
        (get h.categories (event_id, category_id))
Contradicts s h (quota_increased event_id category_id previous current) = current ≤ previous
Contradicts s h (record_entered runner event_id bib_no token_id) =
    Missing (λ (r : ChainRecord). (r.event_id ≢ event_id) ⊎ (r.bib_no ≢ bib_no))
      (get h.records token_id)
Contradicts s h _ = ⊥

if_none {ℓ} :
    {A : Type ℓ} (b : Bool) (a : A) (o : Option A)
    → ((if b then some a else o) ≡ none) ↔ ((b ≡ false) × (o ≡ none))
if_none b a o = ground arith
