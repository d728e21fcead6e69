-- ===== src/Notifyu/Load/Lines.antt =====
-- The lines of loader_files/notifyu.txt, as the README describes them:
-- `<source name> <exposed rest api route> <subscribing tenant>`
use feedback_ingest.Base.{◌≡◌, refl, [], ◌∷◌, ◌++◌, Bytes}
use feedback_ingest.Base.{ok, undefined, ◌>>=◌}
use feedback_ingest.Base.Int.{ℤ, int_eq}
use feedback_ingest.Base.Dict
use feedback_ingest.Stream.{is_space, continue_with, extract_int}
use feedback_ingest.Stream.Words.{
  IsWord, extract_word-append, extract_word-space, extract_word_last,
}
use feedback_ingest.Stream.Ints.{IsInt, extract_int-space}
use feedback_ingest.Tenant.{EntryMap}
use feedback_ingest.DataSource.{InfoHeader}
use feedback_ingest.DataSource.Tenants.{tenants_text}
use feedback_ingest.Notifyu.{NotifyuInfo}
use feedback_ingest.Notifyu.Load.{get_loader_entry}

abbrev pub notifyu_line : InfoHeader NotifyuInfo → ℤ → Bytes
notifyu_line h i = h.name ++ (b' ' ∷ (h.source_info.listening_route ++ tenants_text (i ∷ []) []))

-- A line with a name, a route and a tenant gives the entry that it shows, with the tenant under its
-- key in the map, or the exception that the map lacks it.
pub get_loader_entry-notifyu_line :
    (m : EntryMap) (h : InfoHeader NotifyuInfo) (i : ℤ)
    → IsWord h.name
    → IsWord h.source_info.listening_route
    → IsInt i
    → get_loader_entry m (notifyu_line h i) ≡ (
        Dict.lookup_at i m >>= λ key.
        ok (record { source_info_with_header = h; subscribing_tenants = key ∷ [] }))
unfolding get_loader_entry continue_with
get_loader_entry-notifyu_line m h i name route int = rw (
  extract_word-append h.name (b' ' ∷ (h.source_info.listening_route ++ tenants_text (i ∷ []) []))
      name (unfold is_space in refl),
  extract_word-space h.source_info.listening_route (tenants_text (i ∷ []) []) route
      (unfold is_space in refl),
  extract_int-space i [] int tt,
)

-- A line that ends behind the route has undefined behaviour.
pub get_loader_entry_notifyu_short :
    (m : EntryMap) (h : InfoHeader NotifyuInfo)
    → IsWord h.name
    → IsWord h.source_info.listening_route
    → get_loader_entry m (h.name ++ (b' ' ∷ h.source_info.listening_route)) ≡ undefined
unfolding get_loader_entry continue_with extract_int
get_loader_entry_notifyu_short m h name route = rw (
  extract_word-append h.name (b' ' ∷ h.source_info.listening_route) name (unfold is_space in refl),
  extract_word_last h.source_info.listening_route route,
)
