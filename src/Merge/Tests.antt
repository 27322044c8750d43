-- ===== src/Merge/Tests.antt =====
-- Merges of small texts.
use podokit.Base.{
  ◌≡◌, refl, ◌≢◌, false, List, [], ◌∷◌, arith, codes, list_beq, Text, same, same_iff, nat_eq,
  text_eq,
}
use podokit.Map
use podokit.Texts.{split, join, newline}
use podokit.Diff.{table, table_row, zeros}
use podokit.Texts.{starts_with, includes}
use podokit.Merge.Markers.{
  indent_of, trim_start, trim, insert_line, insert_at_marker, starts_block, remove_block,
  remove_at_marker, find_line, extract_region, replace_region,
}
use podokit.Merge.Markers.RoundTrip.{remove_at_marker-insert_at_marker}
use podokit.Base.{ok, false}
use podokit.Merge.ThreeWay.{
  Labels, matches_from, lcs_matches, anchors, merge_hunk, merge_from, merge_lines, three_way_merge,
}
use podokit.Merge.ThreeWay.Hunks.{IsMerge, three_way_merge-IsMerge}

merges : Unit {0}
unfolding table table_row zeros matches_from lcs_matches anchors merge_hunk merge_from merge_lines
    three_way_merge split join same list_beq Map.get
merges = tt

abbrev labels : Labels
labels = record { current = codes "current"; next = codes "podokit" }

abbrev lines : List Text → Text
lines ls = join (newline ∷ []) ls

abbrev base : Text
base = lines (codes "a" ∷ codes "b" ∷ codes "c" ∷ [])

-- A line changed on one side, another one added on the other.
both_changed :
    three_way_merge labels base
      (lines (codes "A" ∷ codes "b" ∷ codes "c" ∷ []))
      (lines (codes "a" ∷ codes "b" ∷ codes "c" ∷ codes "d" ∷ []))
    ≡ record { merged = lines (codes "A" ∷ codes "b" ∷ codes "c" ∷ codes "d" ∷ []); conflicts = 0 }
unfolding merges
both_changed = refl

-- A blank line added to the current text is lost, since no line and one empty line join to one text.
blank_line_lost :
    three_way_merge labels base
      (lines (codes "a" ∷ [] ∷ codes "b" ∷ codes "c" ∷ []))
      (lines (codes "a" ∷ codes "b" ∷ codes "c" ∷ codes "d" ∷ []))
    ≡ record { merged = lines (codes "a" ∷ codes "b" ∷ codes "c" ∷ codes "d" ∷ []); conflicts = 0 }
unfolding merges
blank_line_lost = refl

abbrev ours : Text
ours = lines (codes "A" ∷ codes "b" ∷ codes "c" ∷ [])

abbrev theirs : Text
theirs = lines (codes "x" ∷ codes "b" ∷ codes "c" ∷ [])

apart : (s t : Text) → same s t ≡ false → s ≢ t
apart s t h = ground (arith, same_iff s t, h)

sides-differ : same ours theirs ≡ false
unfolding merges
sides-differ = refl

current-differs : same base ours ≡ false
unfolding merges
current-differs = refl

next-differs : same base theirs ≡ false
unfolding merges
next-differs = refl

three_way_merge-IsMerge_example :
    IsMerge labels
      (split newline base)
      (split newline ours)
      (split newline theirs)
      (three_way_merge labels base ours theirs)
three_way_merge-IsMerge_example =
    three_way_merge-IsMerge labels base ours theirs (apart ours theirs sides-differ)
      (apart base ours current-differs) (apart base theirs next-differs)

one_conflict : (three_way_merge labels base ours theirs).conflicts ≡ 1
unfolding merges
one_conflict = refl

markers : Unit {0}
unfolding indent_of trim_start trim insert_line insert_at_marker starts_block remove_block
    remove_at_marker find_line extract_region replace_region starts_with includes split join same
    list_beq
markers = tt

abbrev app : Text
app = lines (codes "export const modules = [" ∷ codes "  // podokit:modules" ∷ codes "];" ∷ [])

abbrev with_jobs : Text
with_jobs = lines (
    codes "export const modules = ["
    ∷ codes "  jobs,"
    ∷ codes "  // podokit:modules"
    ∷ codes "];"
    ∷ [])

-- The text goes before the marker line, with its indentation.
jobs_added : insert_at_marker app (codes "podokit:modules") (codes "jobs,") ≡ ok with_jobs
unfolding markers
jobs_added = refl

jobs_trimmed : trim (codes "jobs,") ≡ codes "jobs,"
unfolding markers
jobs_trimmed = refl

jobs_absent : includes app (codes "jobs,") ≡ false
unfolding markers
jobs_absent = refl

remove_at_marker-insert_at_marker_example : remove_at_marker with_jobs (codes "jobs,") ≡ app
remove_at_marker-insert_at_marker_example =
    remove_at_marker-insert_at_marker app (codes "podokit:modules") (codes "jobs,") jobs_trimmed
      refl jobs_absent jobs_added

abbrev fenced : Text
fenced = lines (codes "  // podokit:begin:env" ∷ codes "  A" ∷ codes "  // podokit:end:env" ∷ [])

region_replaced :
    replace_region fenced (codes "env") (codes "B" ∷ [] ∷ [])
    ≡ ok (
        lines
          (codes "  // podokit:begin:env" ∷ codes "  B" ∷ [] ∷ codes "  // podokit:end:env" ∷ []))
unfolding markers
region_replaced = refl
