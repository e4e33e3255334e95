-- ===== src/Policy.antt =====
-- src/policy: the policy model, the rule keys, the classifier and the two-layer resolver.
pub mod Model
pub mod RuleKey
pub mod Statement
pub mod Resolver
pub mod Lexical
pub mod Keywords
pub mod Classifier
pub mod SampleStatement
mod Tests
