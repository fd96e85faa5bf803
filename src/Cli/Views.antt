-- ===== src/Cli/Views.antt =====
-- internal/cli/render.go and secrets_render.go: the texts. What several Fprintf write is one text.
use localclaw.Common.{
  ℕ, zero, suc, ◌-◌, String, ◌<>◌, Bool, ◌&&◌, none, some, List, [], ◌∷◌, if◌then◌else◌, ◌==◌,
  string_eq, nat_eq, ltb, length, codes, width, byte_len, itoa,
}
use localclaw.App.Secrets.{
  StoreState, stored, removed, absent, stopped, failed, StoreOutcome, SecretStatus, SecretDetail,
  Outcome, store_state_eq,
}
use localclaw.Domain.Errors.{text}
use localclaw.Domain.Report.{Status, pass, warn, fail, Check, Report, count}
use localclaw.Domain.Role.{Role, role_name}
use localclaw.Domain.Secret.{Source, generated, minted, user, source_name}

spaces : ℕ → String
spaces zero = ""
spaces (suc n) = " " <> spaces n

-- fmt's %-*s, which counts characters.
pad : ℕ → String → String
unfolding spaces
pad n s = s <> spaces (n - length (codes s))

larger : ℕ → ℕ → ℕ
larger a b = if ltb a b then b else a

-- The widest name, by len.
name_width : ℕ → List Check → ℕ
unfolding larger
name_width width [] = width
name_width width (c ∷ cs) = name_width (larger width (byte_len (codes c.name))) cs

abbrev pub upper_status : Status → String
upper_status pass = "PASS"
upper_status warn = "WARN"
upper_status fail = "FAIL"

check_lines : ℕ → List Check → String
unfolding pad
check_lines width [] = ""
check_lines width (c ∷ cs) =
    (upper_status c.status <> ("  " <> (pad width c.name <> ("  " <> (c.summary <> "\n")))))
    <> ((if c.hint == "" then "" else "      hint: " <> (c.hint <> "\n")) <> check_lines width cs)

-- renderReportText(w, r)
unfoldable pub report_text : Report → String
unfolding name_width check_lines
report_text r =
    check_lines (name_width 0 r) r
    <> ("\n"
        <> (itoa (count pass r)
            <> (" passed, "
                <> (itoa (count warn r)
                    <> (" warnings, " <> (itoa (count fail r) <> " failed\n"))))))

join_names : List Role → String
join_names [] = ""
join_names (r ∷ []) = role_name r
join_names (r ∷ q ∷ rs) = role_name r <> ("," <> join_names (q ∷ rs))

-- zonesText(roles)
unfoldable pub zones_text : List Role → String
unfolding join_names
zones_text rs = join_names rs

abbrev pub unset_text : Source → String → String
unset_text generated name = "unset (generated on next up)"
unset_text minted name = "unset (minted on next up)"
unset_text user name = "unset (run `lclaw secrets set " <> (name <> "`)")

-- stateText(s)
unfoldable pub state_text : SecretStatus → String
state_text s = if s.set then "set" else unset_text s.spec.source s.spec.name

-- stateWord(set)
abbrev pub state_word : Bool → String
state_word set = if set then "set" else "unset"

abbrev pub state_name : StoreState → String
state_name stored = "stored"
state_name removed = "removed"
state_name absent = "absent"
state_name stopped = "stopped"
state_name failed = "failed"

-- storeText(s)
unfoldable pub store_text : StoreOutcome → String
store_text s = elim s.error [
  | some e ↦ state_name s.state <> (": " <> text e)
  | none ↦ state_name s.state
]

abbrev pub row_cells : SecretStatus → List String
row_cells r = r.spec.name ∷ source_name r.source ∷ zones_text r.spec.zones ∷ state_text r ∷ []

abbrev pub table_rows : List SecretStatus → List (List String)
table_rows [] = []
table_rows (r ∷ rs) = row_cells r ∷ table_rows rs

widen : List ℕ → List String → List ℕ
unfolding larger
widen [] cells = []
widen (w ∷ ws) [] = w ∷ ws
widen (w ∷ ws) (c ∷ cells) = larger w (byte_len (codes c)) ∷ widen ws cells

widths : List ℕ → List (List String) → List ℕ
unfolding widen
widths ws [] = ws
widths ws (r ∷ rows) = widths (widen ws r) rows

row_text : List ℕ → List String → String
unfolding pad
row_text ws [] = ""
row_text ws (c ∷ []) = c <> "\n"
row_text [] (c ∷ d ∷ cells) = c <> ("  " <> row_text [] (d ∷ cells))
row_text (w ∷ ws) (c ∷ d ∷ cells) = pad w c <> ("  " <> row_text ws (d ∷ cells))

rows_text : List ℕ → List (List String) → String
unfolding row_text
rows_text ws [] = ""
rows_text ws (r ∷ rows) = row_text ws r <> rows_text ws rows

-- renderListText(w, rows), with writeTable for its four columns.
unfoldable pub list_text : List SecretStatus → String
unfolding widths rows_text
list_text rows =
    let table = ("NAME" ∷ "SOURCE" ∷ "ZONES" ∷ "STATE" ∷ []) ∷ table_rows rows in
    rows_text (widths (0 ∷ 0 ∷ 0 ∷ 0 ∷ []) table) table

-- renderDetailText(w, d); `show` is Time.Format with RFC 3339 in UTC.
unfoldable pub detail_text : (ℕ → String) → SecretDetail → String
unfolding zones_text
detail_text show d =
    "name:      "
    <> (d.status.spec.name
        <> ("\nsource:    "
            <> (source_name d.status.source
                <> ("\nzones:     "
                    <> (zones_text d.status.spec.zones
                        <> ("\nstate:     "
                            <> (state_word d.status.set
                                <> ((if d.status.set
                                      then "\ncreated:   "
                                        <> (show d.created <> ("\nmodified:  " <> show d.modified))
                                      else "")
                                    <> ("\nstore:     " <> (store_text d.store <> "\n"))))))))))

-- renderOutcomeText(w, verb, o)
unfoldable pub outcome_text : String → Outcome → String
unfolding store_text
outcome_text verb o =
    (verb <> (" " <> (o.name <> ("\n  store  " <> (store_text o.store <> "\n")))))
    <> (if verb == "updated" && o.store.state == stored
        then "pods pick the new value up on the next `lclaw up`\n"
        else "")
