-- ===== src/Shell/Requests.antt =====
-- The two request helpers against each other, and the color mode over a reload.
use cal_stack.Base.{
  ◌≡◌, refl, Bool, true, some, [], ◌∷◌, append-nil, Text, codes, text_eq, Bool-cases, inl, inr,
  text_or,
}
use cal_stack.Shell.{
  no_data, value, app_api, page_api, csrf_headers, Theme, open_theme, toggle_theme,
}

text_or-nil : (s : Text) → text_or s [] ≡ s
text_or-nil [] = refl
text_or-nil (c ∷ s) = refl

-- For objects and for no data both helpers send the same, where they have the same token.
app_api-page_api :
    (csrf method url : Text)
    → (app_api csrf method url no_data [] ≡ page_api (some csrf) method url no_data)
      × ((json : Text)
          → app_api csrf method url (value json) [] ≡ page_api (some csrf) method url (value json))
unfolding app_api page_api
app_api-page_api csrf method url =
    rw (append-nil (csrf_headers method csrf), text_or-nil csrf) (refl, λ json. refl)

-- The mode that a click chose is the one after a reload, where the storage works.
open_theme-toggle_theme :
    (prefers_dark : Bool) (t : Theme)
    → (open_theme true prefers_dark (toggle_theme true t).stored).mode ≡ (toggle_theme true t).mode
unfolding open_theme toggle_theme text_eq
open_theme-toggle_theme prefers_dark t = elim (Bool-cases (text_eq t.mode (codes "dark"))) [
  | inl e ↦ rw e refl
  | inr e ↦ rw e refl
]
