-- ===== src/Resolution.antt =====
-- The entity resolution (app/parsers/resolution.py): the edit distance, the clusters of similar
-- names, and the removal of duplicates.
pub mod Levenshtein
pub mod Item
pub mod Clusters
pub mod Merge
pub mod Resolve
pub mod Duplicates
