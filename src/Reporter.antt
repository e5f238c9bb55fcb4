-- ===== src/Reporter.antt =====
-- What each of the three vendor nodes promises to its subscribers, without its state: it reports the
-- evaluation of what the latest messages say. The nodes fill the interface in the modules below.
pub mod Ur
pub mod Fanuc
pub mod Khi
pub mod Vendors
use icon_hwm_controller.Prelude.{
  ℕ, zero, suc, ◌<◌, ◌≡◌, refl, ap, ◌∙◌, List, [], ◌∷◌, some, arith, length, take, get_elem?,
}
use icon_hwm_controller.OperationalStatus.{OperationalStatus}

-- A view is what the messages so far have told; a timer tick tells nothing.
pub record Reporter : Type 1 where
  pub View : Type 0
  pub Message : Type 0
  pub blank : View
  pub absorb : View → Message → View
  pub evaluate : View → OperationalStatus

module _ (r : Reporter) where
  open r use {View, Message, blank, absorb, evaluate}

  abbrev pub view : View → List Message → View
  view v [] = v
  view v (m ∷ ms) = view (absorb v m) ms

  -- The specification: one report for each message.
  abbrev pub reports : View → List Message → List OperationalStatus
  reports v [] = []
  reports v (m ∷ ms) = evaluate (absorb v m) ∷ reports (absorb v m) ms

  -- A node implements a reporter when its states stand for views, and each callback leads to the state
  -- for the next view and publishes the evaluation of that view.
  pub record Implements {Node : Type 0} (start : Node)
      (dispatch : Node → Message → Node × OperationalStatus) : Type 1 where
    pub Shows : Node → View → Type 0
    pub start_shows : Shows start blank
    pub dispatch_shows :
        (n : Node) (v : View) (m : Message)
        → Shows n v
        → Shows (dispatch n m).0 (absorb v m) × ((dispatch n m).1 ≡ evaluate (absorb v m))

  -- What a node publishes in a history of callbacks, the oldest first.
  abbrev pub published :
      {Node : Type 0}
      → (Node → Message → Node × OperationalStatus)
      → Node
      → List Message
      → List OperationalStatus
  published dispatch n [] = []
  published dispatch n (m ∷ ms) = (dispatch n m).1 ∷ published dispatch (dispatch n m).0 ms

  module _ {Node : Type 0} {start : Node} {dispatch : Node → Message → Node × OperationalStatus}
      (i : Implements start dispatch) where
    published_from :
        (n : Node) (v : View) (ms : List Message)
        → i.Shows n v
        → published dispatch n ms ≡ reports v ms
    published_from n v [] s = refl
    published_from n v (m ∷ ms) s =
        let (s', e) = i.dispatch_shows n v m s in
        ap (λ (s : OperationalStatus). s ∷ published dispatch (dispatch n m).0 ms) e
        ∙ ap (λ (l : List OperationalStatus). evaluate (absorb v m) ∷ l)
            (published_from (dispatch n m).0 (absorb v m) ms s')

    -- No history of callbacks tells an implementation from the specification.
    pub published-reports : (ms : List Message) → published dispatch start ms ≡ reports blank ms
    published-reports ms = published_from start blank ms i.start_shows
