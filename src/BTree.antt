-- ===== src/BTree.antt =====
-- The standard library's `BTreeSet` and `BTreeMap`, as the ascending sequences that they iterate
-- over.
pub mod Set
pub mod Map
