-- ===== src/Main/Rows.antt =====
-- The lines of loader_files/discourse.txt, filepp.txt and notifyu.txt for a source and its tenants, as
-- the README describes them.
use feedback_ingest.Base.{
  ◌≤◌, ◌≡◌, refl, ap, ◌∙◌, arith, List, [], ◌∷◌, ◌++◌, ok, Bytes, All, length, >>=-ok, ok-injective,
}
use feedback_ingest.Base.Int.{ℤ, int_eq, pos, int_max}
use feedback_ingest.Base.Dict
use feedback_ingest.Base.Decimal.{to_string}
use feedback_ingest.Registry.{Key}
use feedback_ingest.FileOps.Lines.{IsLine}
use feedback_ingest.Stream.Words.{IsWord}
use feedback_ingest.Stream.Ints.{IsInt}
use feedback_ingest.Stream.Shown.{IsKept, to_string-IsWord, word-IsKept, space_word-IsLine}
use feedback_ingest.Tenant.{EntryMap}
use feedback_ingest.DataSource.Tenants.{tenants_text, find_tenants}
use feedback_ingest.Discourse.{DiscourseInfo}
use feedback_ingest.Filepp.{FileppInfo}
use feedback_ingest.Notifyu.{NotifyuInfo}
use feedback_ingest.Discourse.Load as DiscourseLoad
use feedback_ingest.Filepp.Load as FileppLoad
use feedback_ingest.Notifyu.Load as NotifyuLoad
use feedback_ingest.Discourse.Load.Lines.{discourse_line, get_loader_entry-discourse_line}
use feedback_ingest.Filepp.Load.Lines.{filepp_line, get_loader_entry-filepp_line}
use feedback_ingest.Notifyu.Load.Lines.{get_loader_entry-notifyu_line}
use feedback_ingest.Application.Shown.{SourceRow}

tenants_text-IsLine : (is : List ℤ) → IsLine (tenants_text is [])
tenants_text-IsLine [] = tt
tenants_text-IsLine (i ∷ is) =
    space_word-IsLine (to_string i) _ (to_string-IsWord i) (tenants_text-IsLine is)

-- The lines of the three kinds of source, and what they may hold.
abbrev pub discourse_row_line : SourceRow DiscourseInfo → Bytes
discourse_row_line (h, is) = discourse_line h (length is) is

abbrev pub IsDiscourseRow : SourceRow DiscourseInfo → Type 0
IsDiscourseRow (h, is) =
    IsWord h.name × IsInt h.source_info.topic_id × (length is ≤ int_max) × All IsInt is

pub discourse_row_line-IsKept :
    (row : SourceRow DiscourseInfo) → IsDiscourseRow row → IsKept (discourse_row_line row)
discourse_row_line-IsKept (h, is) (name, topic, count, ints) = word-IsKept h.name _ name (
    space_word-IsLine (to_string h.source_info.topic_id) _ (to_string-IsWord _) (
      space_word-IsLine (to_string (pos (length is))) _ (to_string-IsWord (pos (length is)))
        (tenants_text-IsLine is)))

pub discourse_row_line-read :
    (m : EntryMap) (row : SourceRow DiscourseInfo) (ks : List Key)
    → IsDiscourseRow row
    → find_tenants m row.1 ≡ ok ks
    → DiscourseLoad.get_loader_entry m (discourse_row_line row)
      ≡ ok (record { source_info_with_header = row.0; subscribing_tenants = ks })
discourse_row_line-read m (h, is) ks (name, topic, count, ints) e =
    rw (get_loader_entry-discourse_line m h is name topic count ints, e) refl

abbrev pub filepp_row_line : SourceRow FileppInfo → Bytes
filepp_row_line (h, is) = filepp_line h (length is) is

abbrev pub IsFileppRow : SourceRow FileppInfo → Type 0
IsFileppRow (h, is) =
    IsWord h.name × IsWord h.source_info.file_path × (length is ≤ int_max) × All IsInt is

pub filepp_row_line-IsKept :
    (row : SourceRow FileppInfo) → IsFileppRow row → IsKept (filepp_row_line row)
filepp_row_line-IsKept (h, is) (name, path, count, ints) = word-IsKept h.name _ name (
    space_word-IsLine h.source_info.file_path _ path (
      space_word-IsLine (to_string (pos (length is))) _ (to_string-IsWord (pos (length is)))
        (tenants_text-IsLine is)))

pub filepp_row_line-read :
    (m : EntryMap) (row : SourceRow FileppInfo) (ks : List Key)
    → IsFileppRow row
    → find_tenants m row.1 ≡ ok ks
    → FileppLoad.get_loader_entry m (filepp_row_line row)
      ≡ ok (record { source_info_with_header = row.0; subscribing_tenants = ks })
filepp_row_line-read m (h, is) ks (name, path, count, ints) e =
    rw (get_loader_entry-filepp_line m h is name path count ints, e) refl

-- A notifyu source has one tenant.
abbrev pub notifyu_row_line : SourceRow NotifyuInfo → Bytes
notifyu_row_line (h, is) = h.name ++ (b' ' ∷ (h.source_info.listening_route ++ tenants_text is []))

abbrev pub IsNotifyuRow : SourceRow NotifyuInfo → Type 0
IsNotifyuRow (h, is) =
    IsWord h.name × IsWord h.source_info.listening_route × All IsInt is × (length is ≡ 1)

pub notifyu_row_line-IsKept :
    (row : SourceRow NotifyuInfo) → IsNotifyuRow row → IsKept (notifyu_row_line row)
notifyu_row_line-IsKept (h, is) (name, route, ints, one) =
    word-IsKept h.name _ name
      (space_word-IsLine h.source_info.listening_route _ route (tenants_text-IsLine is))

pub notifyu_row_line-read :
    (m : EntryMap) (row : SourceRow NotifyuInfo) (ks : List Key)
    → IsNotifyuRow row
    → find_tenants m row.1 ≡ ok ks
    → NotifyuLoad.get_loader_entry m (notifyu_row_line row)
      ≡ ok (record { source_info_with_header = row.0; subscribing_tenants = ks })
notifyu_row_line-read m (h, []) ks (name, route, ints, one) e = absurd (omega (arith, one))
notifyu_row_line-read m (h, i ∷ j ∷ is) ks (name, route, ints, one) e = absurd (omega (arith, one))
notifyu_row_line-read m (h, i ∷ []) ks (name, route, (int, _), one) e =
    let (k, found, rest) = >>=-ok (Dict.lookup_at i m) _ e in
    get_loader_entry-notifyu_line m h i name route int
    ∙ rw found (
        ap (λ (l : List Key). ok (record { source_info_with_header = h; subscribing_tenants = l }))
          (ok-injective rest))
