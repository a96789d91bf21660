-- ===== src/Tests.antt =====
-- Runs on concrete inputs, and the theorems at inputs that meet their hypotheses.
mod DictRuns
mod HashRuns
mod SdsRuns
mod ListRuns
mod DbRuns
mod TextRuns
mod ServeRuns
