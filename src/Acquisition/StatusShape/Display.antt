-- ===== src/Acquisition/StatusShape/Display.antt =====
-- What the derived status says of the items.
use roles.Prelude.{
  ℕ, ◌+◌, ◌≤◌, ◌≡◌, ◌↔◌, refl, Bool, true, false, ◌||◌, List, [], ◌∷◌, arith, count_where, All,
  nat_eq,
}
use roles.Db.Schema.{SourceItem, ItemStatus, item_status_eq, RequestStatus, request_status_eq}
use roles.Acquisition.StatusShape.{is_deposited, is_failed, derive_display_status, Counts}
use roles.Acquisition.StatusShape.Tally.{tally}

-- An item that is through with the pipeline.
abbrev pub is_finished : ItemStatus → Bool
is_finished s = is_deposited s || is_failed s

abbrev pub is_end : RequestStatus → Bool
is_end RequestStatus.completed = true
is_end RequestStatus.partially_failed = true
is_end _ = false

finished_counts :
    (is : List SourceItem)
    → count_where (λ i. is_deposited i.status) is + count_where (λ i. is_failed i.status) is
      ≡ count_where (λ i. is_finished i.status) is
finished_counts [] = refl
finished_counts (i ∷ is) = ground (arith, finished_counts is)

-- Only selected items go through the pipeline.
abbrev pub FinishedAreSelected : List SourceItem → Type 0
FinishedAreSelected = All (λ i. is_finished i.status ≡ true → i.selected ≡ true)

abbrev pub SelectedAreFinished : List SourceItem → Type 0
SelectedAreFinished = All (λ i. i.selected ≡ true → is_finished i.status ≡ true)

finished_le_selected :
    (is : List SourceItem)
    → FinishedAreSelected is
    → count_where (λ i. is_finished i.status) is ≤ count_where (λ i. i.selected) is
finished_le_selected [] h = omega arith
finished_le_selected (i ∷ is) h = ground (arith, finished_le_selected is h.1, h.0)

selected_le_finished :
    (is : List SourceItem)
    → SelectedAreFinished is
    → count_where (λ i. i.selected) is ≤ count_where (λ i. is_finished i.status) is
selected_le_finished [] h = omega arith
selected_le_finished (i ∷ is) h = ground (arith, selected_le_finished is h.1, h.0)

all_selected_finished :
    (is : List SourceItem)
    → FinishedAreSelected is
    → count_where (λ i. i.selected) is ≤ count_where (λ i. is_finished i.status) is
    → SelectedAreFinished is
all_selected_finished [] h le = tt
all_selected_finished (i ∷ is) h le = (
  (λ s. ground (arith, finished_le_selected is h.1, h.0)),
  all_selected_finished is h.1 (ground (arith, finished_le_selected is h.1, h.0)),
)

is_end-derive :
    (stored : RequestStatus) (c : Counts) (n : ℕ)
    → stored ≡ RequestStatus.acquiring
    → (is_end (derive_display_status stored c n) ≡ true) ↔ (n ≤ c.deposited + c.failed)
unfolding derive_display_status
is_end-derive stored c n h = ground arith

-- A request that is acquiring, and whose finished items were all selected, is shown as ended exactly
-- when every selected item is deposited or failed.
pub derive_display_status-ends :
    (is : List SourceItem)
    → FinishedAreSelected is
    → (is_end (derive_display_status RequestStatus.acquiring (tally is) (tally is).selected) ≡ true)
      ↔ SelectedAreFinished is
unfolding tally
derive_display_status-ends is h = (
  (λ e. all_selected_finished is h (
      omega (
        arith,
        finished_counts is,
        (is_end-derive RequestStatus.acquiring (tally is) (tally is).selected refl).0 e,
      ))),
  (λ s.
      (is_end-derive RequestStatus.acquiring (tally is) (tally is).selected refl).1
        (omega (arith, finished_counts is, selected_le_finished is s))),
)
