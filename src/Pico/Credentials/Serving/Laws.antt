-- ===== src/Pico/Credentials/Serving/Laws.antt =====
-- When the portal's loop ends, and with which credentials.
use textreaderrpi.Common.{
  true, false, List, [], ◌∷◌, ◌++◌, ℕ, Bool, some, ◌≡◌, ◌&&◌, refl, ap, ◌∙◌, if◌then◌else◌,
}
use textreaderrpi.Common.Text.{codes}
use textreaderrpi.Pico.Credentials.{Request, Portal, portal_handler}
use textreaderrpi.Pico.Credentials.Serving.{serve, wait}

module _ (mg_match : List ℕ → List ℕ → Bool) (get_var : List ℕ → List ℕ → ℕ → List ℕ) where
  abbrev pub saves : Request → Bool
  saves r = mg_match r.uri (codes "/save") && mg_match r.method (codes "POST")

  -- No request of a poll saves anything.
  abbrev pub Idle : List Request → Type 0
  Idle [] = Unit
  Idle (r ∷ requests) = (saves r ≡ false) × Idle requests

  abbrev pub AllIdle : List (List Request) → Type 0
  AllIdle [] = Unit
  AllIdle (requests ∷ polls) = Idle requests × AllIdle polls

  serve-Idle :
      (requests : List Request) (p : Portal) → Idle requests → serve mg_match get_var requests p ≡ p
  unfolding serve portal_handler
  serve-Idle [] p idle = refl
  serve-Idle (r ∷ requests) p idle = rw (idle.0) (serve-Idle requests p idle.1)

  wait_done :
      (polls : List (List Request)) (p : Portal)
      → p.s_save_done ≡ true
      → wait mg_match get_var polls p ≡ some p
  unfolding wait
  wait_done [] p done = rw done refl
  wait_done (requests ∷ polls) p done = rw done refl

  wait_step :
      (requests : List Request) (polls : List (List Request)) (p : Portal)
      → p.s_save_done ≡ false
      → wait mg_match get_var (requests ∷ polls) p
        ≡ wait mg_match get_var polls (serve mg_match get_var requests p)
  unfolding wait
  wait_step requests polls p waiting =
      ap
        (λ t. if t then some p else wait mg_match get_var polls (serve mg_match get_var requests p))
        waiting

  saved_done :
      (r : Request) (p : Portal)
      → saves r ≡ true
      → (portal_handler mg_match get_var r p).1.s_save_done ≡ true
  unfolding portal_handler
  saved_done r p posts = rw posts refl

  -- If nothing has been saved yet, the loop goes on through any number of polls with no POST of
  -- /save among their requests, and it ends with the poll whose one request is such a POST, in the
  -- state in which the handler leaves the portal.
  pub wait-portal_handler :
      (idle : List (List Request)) (r : Request) (rest : List (List Request)) (p : Portal)
      → AllIdle idle
      → saves r ≡ true
      → p.s_save_done ≡ false
      → wait mg_match get_var (idle ++ (r ∷ []) ∷ rest) p
        ≡ some (portal_handler mg_match get_var r p).1
  unfolding serve
  wait-portal_handler [] r rest p idle posts waiting =
      wait_step (r ∷ []) rest p waiting
      ∙ wait_done rest (portal_handler mg_match get_var r p).1 (saved_done r p posts)
  wait-portal_handler (requests ∷ polls) r rest p idle posts waiting =
      wait_step requests (polls ++ (r ∷ []) ∷ rest) p waiting
      ∙ ap (wait mg_match get_var (polls ++ (r ∷ []) ∷ rest)) (serve-Idle requests p idle.0)
      ∙ wait-portal_handler polls r rest p idle.1 posts waiting
