-- ===== src/Verify/Research/Tests.antt =====
-- The record of a concrete replication.
use rs_runvault.Base.{true, [], ◌∷◌, none, some, codes, ◌≡◌, refl, list_eq, ℕ_discrete}
use rs_runvault.Error.{ok}
use rs_runvault.Ids.{validate_slug}
use rs_runvault.Meta.{Target, table}
use rs_runvault.Meta.Run.{Work, Research}
use rs_runvault.Verify.Research.{
  blank, split_once, compare_id, check_work_id, check_replication, check_research,
}
use rs_runvault.Verify.Research.Identified.{AreNamed, IsReplication, check_research_sound}

abbrev work : Work
work = record {
  work_id = codes "doi:10.1/x";
  doi = some (codes "10.1/x");
  arxiv_id = none;
  paper_id = none;
  title = codes "A title";
  year = none;
  source_version = some (codes "v1");
}

abbrev target : Target
target = record {
  target_id = codes "table-1";
  kind = table;
  label = codes "Table 1";
  panel = none;
  row = none;
  condition = none;
}

abbrev research : Research
research = record {
  is_replication = true;
  work = some work;
  targets = target ∷ [];
  upstream_impl = none;
  obsidian_note = some (codes "note");
  jira = [];
}

research_accepted : check_research research ≡ ok tt
unfolding check_research validate_slug ℕ_discrete check_replication blank check_work_id split_once
    compare_id list_eq
research_accepted = refl

check_research_sound_example :
    AreNamed (target ∷ [])
    × (true ≡ true → (w : Work) × (some work ≡ some w) × IsReplication research w)
check_research_sound_example = check_research_sound research research_accepted
