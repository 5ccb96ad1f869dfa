-- ===== src/DeltaList/Queue.antt =====
-- The delta list of common/deltalist.c as a sequence of entries: `dl_insert_node` puts an entry at
-- the end.
use psnet.Prelude.{
  ℕ, ◌+◌, ◌≤◌, ◌≡◌, refl, ◌≢◌, ◌∙◌, inl, inr, Option, none, some, List, [], ◌∷◌, In,
}
use psnet.DeltaList.{DeltaList}

-- A node on the delta list: its address, its data, and the ticks left until it expires.
pub record Entry (D : Type 0) : Type 0 where
  pub at : ℕ
  pub value : D
  pub left : ℕ

module _ {D : Type 0} where
  -- `e` stands in memory behind the node `q`, whose entry expires in `acc` ticks. The node holds
  -- the difference.
  pub record Linked (t : DeltaList D) (q : Option ℕ) (acc : ℕ) (e : Entry D) : Type 0 where
    pub holds : t.node_data e.at ≡ some e.value
    pub back : t.dl_prev e.at ≡ q
    pub gap : acc + t.node_delta e.at ≡ e.left
    pub within : e.left ≤ t.interval

  -- From `p` the `dl_next` pointers lead through the entries to NULL, and `dl_prev` leads back.
  abbrev pub Links : DeltaList D → Option ℕ → ℕ → Option ℕ → List (Entry D) → Type 0
  Links t q acc p [] = p ≡ none
  Links t q acc p (e ∷ es) =
      (p ≡ some e.at) × Linked t q acc e × Links t (some e.at) e.left (t.dl_next e.at) es

  abbrev pub Avoids : ℕ → List (Entry D) → Type 0
  Avoids a es = (f : Entry D) → In f es → f.at ≢ a

  -- The entries have different addresses.
  abbrev pub Apart : List (Entry D) → Type 0
  Apart [] = Unit
  Apart (e ∷ es) = Avoids e.at es × Apart es

  abbrev pub head_at : List (Entry D) → Option ℕ
  head_at [] = none
  head_at (e ∷ es) = some e.at

  abbrev pub last_at : Option ℕ → List (Entry D) → Option ℕ
  last_at q [] = q
  last_at q (e ∷ es) = last_at (some e.at) es

  abbrev pub last_left : ℕ → List (Entry D) → ℕ
  last_left acc [] = acc
  last_left acc (e ∷ es) = last_left e.left es

  -- Two states of memory agree on the node at `a`, as far as the delta list goes.
  pub record Agree (t t' : DeltaList D) (a : ℕ) : Type 0 where
    pub holds : t'.node_data a ≡ t.node_data a
    pub delta : t'.node_delta a ≡ t.node_delta a
    pub next : t'.dl_next a ≡ t.dl_next a
    pub prev : t'.dl_prev a ≡ t.dl_prev a

  pub Links-frame :
      (t t' : DeltaList D) (q : Option ℕ) (acc : ℕ) (p : Option ℕ) (es : List (Entry D))
      → t'.interval ≡ t.interval
      → ((e : Entry D) → In e es → Agree t t' e.at)
      → Links t q acc p es
      → Links t' q acc p es
  Links-frame t t' q acc p [] c same h = h
  Links-frame t t' q acc p (e ∷ es) c same h =
      let s = same e (inl refl) in
      (
        h.0,
        record {
          holds = s.holds ∙ h.1.holds;
          back = s.prev ∙ h.1.back;
          gap = rw s.delta h.1.gap;
          within = rw c h.1.within;
        },
        rw s.next
            (Links-frame t t' (some e.at) e.left (t.dl_next e.at) es c (λ f i. same f (inr i)) h.2),
      )

  pub last_at-In :
      (y : Entry D) (l : List (Entry D))
      → (f : Entry D) × In f (y ∷ l) × (last_at (some y.at) l ≡ some f.at)
  last_at-In y [] = (y, inl refl, refl)
  last_at-In y (z ∷ l) = let (f, i, e) = last_at-In z l in (f, inr i, e)
