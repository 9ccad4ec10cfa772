-- ===== src/Machine.antt =====
-- State machines that are given by a table of allowed transitions.
use ai_lab_os.Prelude.{◌≡◌, Bool, true}

-- Any number of allowed transitions.
pub data Reaches {S : Type 0} (can : S → S → Bool) : S → S → Type 0 where
  here : {s : S} → Reaches can s s
  onward : {s t u : S} → Reaches can s t → can t u ≡ true → Reaches can s u

-- What each transition keeps is kept for good.
pub Reaches-keeps :
    {S : Type 0} (can : S → S → Bool) (p : S → Bool)
    → ((t u : S) → p t ≡ true → can t u ≡ true → p u ≡ true)
    → {s t : S} → Reaches can s t
    → p s ≡ true
    → p t ≡ true
Reaches-keeps can p step here h = h
Reaches-keeps can p step (onward r e) h = step _ _ (Reaches-keeps can p step r h) e
