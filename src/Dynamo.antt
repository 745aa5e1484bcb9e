-- ===== src/Dynamo.antt =====
-- auth/storage/dynamodb: the store in DynamoDB.
pub mod Items
pub mod Service
pub mod Codes
pub mod Tests
